-- ===== src/Lock/Writes.antt =====
-- A resource that asks for fencing tokens (src/distributed_lock/base.py).
use boilerplate_python_fasta.Prelude.{
  refl, [], ◌∷◌, none, some, ℕ, List, All, Option, if◌then◌else◌, ◌≡◌, subst, ◌<◌, sym, ◌≤◌, arith,
  Bool-cases, ltb, inl, All-map, inr,
}
use boilerplate_python_fasta.Lock.{require_fence, fence_is_current, ℕ, List, Option, ltb}

-- The resource takes a write if its token passes, and then remembers the token.
unfoldable pub write : ℕ → Option ℕ → Option ℕ
write token last_accepted = if require_fence token last_accepted then some token else last_accepted

-- The tokens of the writes that were applied, newest first.
unfoldable pub applied : List ℕ → List ℕ → Option ℕ → List ℕ
applied [] log last_accepted = log
applied (token ∷ rest) log last_accepted =
    applied rest (if require_fence token last_accepted then token ∷ log else log)
      (write token last_accepted)

abbrev pub IsDescending : List ℕ → Type 0
IsDescending [] = Unit
IsDescending (token ∷ log) = All (λ earlier. earlier < token) log × IsDescending log

-- The log as the resource remembers it: nothing yet, or up to the last token.
abbrev UpTo : List ℕ → Option ℕ → Type 0
UpTo log none = log ≡ []
UpTo log (some last_accepted) = All (λ token. token ≤ last_accepted) log × IsDescending log

UpTo-write :
    (token : ℕ) (log : List ℕ) (last_accepted : Option ℕ)
    → UpTo log last_accepted
    → UpTo
        (if require_fence token last_accepted then token ∷ log else log)
        (write token last_accepted)
unfolding write require_fence fence_is_current
UpTo-write token log none h =
    subst (λ l. All (λ t. t ≤ token) (token ∷ l) × IsDescending (token ∷ l)) (sym h)
      ((omega arith, tt), (tt, tt))
UpTo-write token log (some last_accepted) h = elim (Bool-cases (ltb last_accepted token)) [
  | inl e ↦ rw e (
    (omega arith, All-map _ _ (λ t k. ground arith) log h.0),
    (All-map _ _ (λ t k. ground arith) log h.0, h.1),
  )
  | inr e ↦ rw e h
]

UpTo-IsDescending :
    (log : List ℕ) (last_accepted : Option ℕ) → UpTo log last_accepted → IsDescending log
UpTo-IsDescending log none h = subst IsDescending (sym h) tt
UpTo-IsDescending log (some last_accepted) h = h.1

IsDescending-from :
    (tokens log : List ℕ) (last_accepted : Option ℕ)
    → UpTo log last_accepted
    → IsDescending (applied tokens log last_accepted)
unfolding applied
IsDescending-from [] log last_accepted h = UpTo-IsDescending log last_accepted h
IsDescending-from (token ∷ rest) log last_accepted h =
    IsDescending-from rest _ _ (UpTo-write token log last_accepted h)

-- Whatever tokens reach a resource that asks `require_fence` before each write, the writes that it
-- applies carry tokens that grow strictly: no token twice, and none of an older lease after a
-- newer.
applied-IsDescending : (tokens : List ℕ) → IsDescending (applied tokens [] none)
applied-IsDescending tokens = IsDescending-from tokens [] none refl
