-- ===== src/TtlCache.antt =====
-- `_TTLStore` and `CachedFunction.__call__` of src/decorators/cache.py. The `OrderedDict` is its
-- entries, oldest first; each reading of the clock is an argument.
pub mod Entries
pub mod Sound
pub mod Runs
pub mod Counters
use boilerplate_python_fasta.Prelude.Dict
use boilerplate_python_fasta.Prelude.{
  refl, [], ◌∷◌, none, some, zero, suc, Option, if◌then◌else◌, List, Bool, ◌+◌, ℕ, not, leb, ◌++◌,
  false, ◌&&◌, true, length, ◌==◌,
}
use boilerplate_python_fasta.Prelude.Dict.{Dict}

pub record Entry (V : Type 0) : Type 0 where
  pub value : V
  pub expires_at : ℕ

pub record TtlStore (K V : Type 0) : Type 0 where
  pub entries : Dict K (Entry V)
  pub maxsize : ℕ
  pub ttl : ℕ
  pub hits : ℕ
  pub misses : ℕ
  pub evictions : ℕ
  pub expirations : ℕ

abbrev pub new_store : {K V : Type 0} → (maxsize ttl : ℕ) → TtlStore K V
new_store maxsize ttl = record {
  entries = [];
  maxsize = maxsize;
  ttl = ttl;
  hits = 0;
  misses = 0;
  evictions = 0;
  expirations = 0;
}

pub record CacheInfo : Type 0 where
  pub hits : ℕ
  pub misses : ℕ
  pub evictions : ℕ
  pub expirations : ℕ
  pub size : ℕ
  pub maxsize : ℕ
  pub ttl : ℕ

-- `hit_rate`, as a fraction.
unfoldable pub hit_rate : CacheInfo → ℕ × ℕ
hit_rate i = let lookups = i.hits + i.misses in if lookups == 0 then (0, 1) else (i.hits, lookups)

unfoldable pub info : {K V : Type 0} → TtlStore K V → CacheInfo
info s = record {
  hits = s.hits;
  misses = s.misses;
  evictions = s.evictions;
  expirations = s.expirations;
  size = length s.entries;
  maxsize = s.maxsize;
  ttl = s.ttl;
}

-- `popitem(last=False)`, which is called on a store that is not empty.
abbrev pub pop_first : {A : Type 0} → List A → List A
pop_first [] = []
pop_first (x ∷ xs) = xs

-- `key in d`
abbrev pub is_some : {A : Type 0} → Option A → Bool
is_some none = false
is_some (some x) = true

module _ {K V : Type 0} (dec : Discrete K) where
  -- `move_to_end`, for a key that is there with this entry.
  unfoldable pub move_to_end : K → Entry V → Dict K (Entry V) → Dict K (Entry V)
  move_to_end key e d = Dict.remove dec key d ++ (key, e) ∷ []

  unfoldable pub peek : (now : ℕ) → K → TtlStore K V → Option (Entry V) × TtlStore K V
  peek now key s = elim (Dict.get dec key s.entries) [
    | none ↦ (none, s)
    | some e ↦
        if leb e.expires_at now
        then (
          none,
          record s { entries = Dict.remove dec key s.entries; expirations = s.expirations + 1 },
        )
        else (some e, record s { entries = move_to_end key e s.entries })
  ]

  unfoldable pub hit : TtlStore K V → TtlStore K V
  hit s = record s { hits = s.hits + 1 }

  unfoldable pub miss : TtlStore K V → TtlStore K V
  miss s = record s { misses = s.misses + 1 }

  -- The eviction that `set` begins with.
  unfoldable pub make_room : K → TtlStore K V → TtlStore K V
  make_room key s =
      if not (is_some (Dict.get dec key s.entries)) && leb s.maxsize (length s.entries)
      then record s { entries = pop_first s.entries; evictions = s.evictions + 1 }
      else s

  unfoldable pub store : (now : ℕ) → K → V → TtlStore K V → TtlStore K V
  store now key value s =
      let e : Entry V = record { value = value; expires_at = now + s.ttl } in
      record s { entries = move_to_end key e (Dict.put dec key e s.entries) }

  unfoldable pub set_entry : (now : ℕ) → K → V → TtlStore K V → TtlStore K V
  set_entry now key value s = store now key value (make_room key s)

  unfoldable pub invalidate : K → TtlStore K V → Bool × TtlStore K V
  invalidate key s =
      (is_some (Dict.get dec key s.entries), record s { entries = Dict.remove dec key s.entries })

  unfoldable pub clear : TtlStore K V → TtlStore K V
  clear s = record s { entries = []; hits = 0; misses = 0; evictions = 0; expirations = 0 }

  -- What `__call__` does with the entry that `peek` found.
  abbrev pub respond :
      {A : Type 0}
      → (key_of : A → K) (func : A → V) (later : ℕ) → A
      → Option (Entry V)
      → TtlStore K V
      → V × TtlStore K V
  respond key_of func later args (some e) s = (e.value, hit s)
  respond key_of func later args none s =
      (func args, set_entry later (key_of args) (func args) (miss s))

  -- `CachedFunction.__call__`: `key_of` builds the key, `func` is what is cached; `later` is the
  -- clock when the value is stored.
  unfoldable pub call :
      {A : Type 0}
      → (key_of : A → K) (func : A → V) (now later : ℕ) → A
      → TtlStore K V
      → V × TtlStore K V
  call key_of func now later args s =
      let (found, s') = peek now (key_of args) s in respond key_of func later args found s'
