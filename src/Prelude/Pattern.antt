-- ===== src/Prelude/Pattern.antt =====
-- What the source uses of Python's `re.match` on patterns that end in `$`, which matches at the end
-- and also before a newline that is the last character. A text is its code points.
use Prim.Native.Nat.{ℕ}
use mathlib.Core.Path.{◌≡◌, refl, ap}
use mathlib.Core.Bool.{Bool, true, false, ◌&&◌}
use mathlib.Core.List.{List, [], ◌∷◌, ◌++◌}
use native.Mathlib.Omega.{arith}
use boilerplate_python_fasta.Prelude.Tests.{◌==◌, if◌then◌else◌}

-- `$`
unfoldable pub at_end : List ℕ → Bool
at_end [] = true
at_end (c ∷ []) = c == 10
at_end (c ∷ d ∷ rest) = false

abbrev pub all : (ℕ → Bool) → List ℕ → Bool
all p [] = true
all p (c ∷ cs) = p c && all p cs

-- Without one final newline.
abbrev pub chomp : List ℕ → List ℕ
chomp [] = []
chomp (c ∷ []) = if c == 10 then [] else c ∷ []
chomp (c ∷ d ∷ cs) = c ∷ chomp (d ∷ cs)

pub chomp-newline : (cs : List ℕ) → chomp (cs ++ 10 ∷ []) ≡ cs
chomp-newline [] = refl
chomp-newline (c ∷ []) = refl
chomp-newline (c ∷ d ∷ cs) = ap (◌∷◌ c) (chomp-newline (d ∷ cs))

module _ (p : ℕ → Bool) where
  -- `[class]*$` for a class without the newline, so that one reading suffices.
  unfoldable pub match_star : List ℕ → Bool
  unfolding at_end
  match_star [] = true
  match_star (c ∷ cs) = let rest = match_star cs in if p c then rest else at_end (c ∷ cs)

  -- `[class]+$`
  unfoldable pub match_plus : List ℕ → Bool
  match_plus [] = false
  match_plus (c ∷ cs) = if p c then match_star cs else false

  pub match_star-chomp : (cs : List ℕ) → p 10 ≡ false → match_star cs ≡ all p (chomp cs)
  unfolding match_star
  match_star-chomp [] h = refl
  match_star-chomp (c ∷ []) h = ground arith
  match_star-chomp (c ∷ d ∷ cs) h = ground (arith, match_star-chomp (d ∷ cs))

  pub all-newline : (cs : List ℕ) → p 10 ≡ false → all p (cs ++ 10 ∷ []) ≡ false
  all-newline [] h = ground arith
  all-newline (c ∷ cs) h = ground (arith, all-newline cs h)

  pub match_star-all : (cs : List ℕ) → all p cs ≡ true → match_star cs ≡ true
  unfolding match_star
  match_star-all [] h = refl
  match_star-all (c ∷ cs) h = ground (arith, match_star-all cs)
