-- ===== src/Streams/Ids.antt =====
-- The order of entry ids (src/redis_streams/base.py, memory.py).
use boilerplate_python_fasta.Prelude.Dict
use boilerplate_python_fasta.Prelude.{
  refl, [], ◌∷◌, ℕ, arith, ◌≡◌, ◌++◌, false, true, ap, ◌∙◌, ite, subst,
}
use boilerplate_python_fasta.Streams.{
  StreamEntryId, is_before, next_id, sorted, insert_sorted, Stream, Dict, StreamEntryId-discrete,
}
use boilerplate_python_fasta.Prelude.Dict.{Dict}

abbrev pub Before : StreamEntryId → StreamEntryId → Type 0
Before a b = is_before a b ≡ true

pub Before-trans : (a b c : StreamEntryId) → Before a b → Before b c → Before a c
unfolding is_before
Before-trans a b c h k = ground arith

pub Before-irrefl : (a : StreamEntryId) → ¬ Before a a
unfolding is_before
Before-irrefl a h = ground arith

pub Before-asym : (a b : StreamEntryId) → Before a b → is_before b a ≡ false
unfolding is_before
Before-asym a b h = ground arith

-- The id of a new entry is after every id of the stream.
pub next_id-Before : (now : ℕ) (s : Stream) → Before s.last_id (next_id now s)
unfolding next_id is_before
next_id-Before now s = ground arith

-- Each id is after the one in front of it, and the first after `last`.
abbrev pub IsAscending : {A : Type 0} → StreamEntryId → Dict StreamEntryId A → Type 0
IsAscending last [] = Unit
IsAscending last (e ∷ rest) = Before last e.0 × IsAscending e.0 rest

pub IsAscending-from :
    {A : Type 0}
    → (a b : StreamEntryId) (d : Dict StreamEntryId A) → Before a b
    → IsAscending b d
    → IsAscending a d
IsAscending-from a b [] h k = tt
IsAscending-from a b (e ∷ d) h k = (Before-trans a b e.0 h k.0, k.1)

insert_sorted-first :
    {A : Type 0}
    → (e : StreamEntryId × A) (d : Dict StreamEntryId A) → IsAscending e.0 d
    → insert_sorted e d ≡ e ∷ d
insert_sorted-first e [] h = refl
insert_sorted-first e (f ∷ d) h = rw (Before-asym e.0 f.0 h.0) refl

-- Entries that ascend are sorted.
pub sorted-IsAscending :
    {A : Type 0}
    → (last : StreamEntryId) (d : Dict StreamEntryId A) → IsAscending last d
    → sorted d ≡ d
unfolding sorted
sorted-IsAscending last [] h = refl
sorted-IsAscending last (e ∷ d) h =
    ap (insert_sorted e) (sorted-IsAscending e.0 d h.1) ∙ insert_sorted-first e d h.1

-- An entry whose id is after all of them stands at the end.
abbrev pub AllBefore : {A : Type 0} → StreamEntryId → Dict StreamEntryId A → Type 0
AllBefore last [] = Unit
AllBefore last (e ∷ rest) = Before e.0 last × AllBefore last rest

ite_no : {X A : Type 0} → (c : Dec X) (x y : A) → ¬ X → ite c x y ≡ y
ite_no (yes p) x y n = absurd (n p)
ite_no (no m) x y n = refl

pub put-last :
    {A : Type 0}
    → (k : StreamEntryId) (v : A) (d : Dict StreamEntryId A) → AllBefore k d
    → Dict.put StreamEntryId-discrete k v d ≡ d ++ (k, v) ∷ []
unfolding Dict.put
put-last k v [] h = refl
put-last k v (e ∷ d) h =
    ite_no (StreamEntryId-discrete e.0 k) _ _ (λ q. Before-irrefl k (subst (λ x. Before x k) q h.0))
    ∙ ap (λ t. e ∷ t) (put-last k v d h.1)

pub IsAscending-append :
    {A : Type 0}
    → (last k : StreamEntryId) (v : A) (d : Dict StreamEntryId A) → Before last k
    → IsAscending last d
    → AllBefore k d
    → IsAscending last (d ++ (k, v) ∷ [])
IsAscending-append last k v [] l h b = (l, tt)
IsAscending-append last k v (e ∷ d) l h b = (h.0, IsAscending-append e.0 k v d b.0 h.1 b.1)

-- At or before.
abbrev pub UpTo : StreamEntryId → StreamEntryId → Type 0
UpTo a b = is_before b a ≡ false

pub UpTo-refl : (a : StreamEntryId) → UpTo a a
unfolding is_before
UpTo-refl a = ground arith

pub UpTo-trans : (a b c : StreamEntryId) → UpTo a b → UpTo b c → UpTo a c
unfolding is_before
UpTo-trans a b c h k = ground arith

pub Before-UpTo : (a b : StreamEntryId) → Before a b → UpTo a b
Before-UpTo a b h = Before-asym a b h

pub UpTo-Before : (a b c : StreamEntryId) → UpTo a b → Before b c → Before a c
unfolding is_before
UpTo-Before a b c h k = ground arith
