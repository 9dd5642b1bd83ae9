-- ===== src/Ws/Rooms.antt =====
-- `RoomRegistry` of src/ws/rooms.py. A member is a number for its identity; a set is a list.
-- Logging is left out.
pub mod Effects
pub mod Invariant
pub mod Broadcast
use boilerplate_python_fasta.Prelude.Dict
use boilerplate_python_fasta.Prelude.Dict.{Dict, or_empty}
use boilerplate_python_fasta.Prelude.{
  zero, suc, [], ◌∷◌, arith, count, remove_first, String_discrete, ℕ_discrete, ℕ, Option, List,
  String, if◌then◌else◌, map, Bool, length, ltb, false, ◌++◌, some, ◌+◌, true, ◌==◌,
}
use mathlib.Core.Option.{none}

pub record RoomRegistry : Type 0 where
  pub rooms : Dict String (List ℕ)
  pub joined : Dict ℕ (List String)

abbrev pub init : RoomRegistry
init = record { rooms = []; joined = [] }

-- `self._rooms.get(room, ())` and `self._joined.get(member, ())`
unfoldable pub members_of : RoomRegistry → String → List ℕ
members_of s room = or_empty (Dict.get String_discrete room s.rooms)

unfoldable pub rooms_of : RoomRegistry → ℕ → List String
rooms_of s member = or_empty (Dict.get ℕ_discrete member s.joined)

unfoldable pub member_count : RoomRegistry → String → ℕ
member_count s room = length (members_of s room)

-- `x in xs`
abbrev pub is_in_room : ℕ → List ℕ → Bool
is_in_room m ms = ltb 0 (count ℕ_discrete m ms)

abbrev pub is_joined : String → List String → Bool
is_joined r rs = ltb 0 (count String_discrete r rs)

unfoldable pub contains : RoomRegistry → String → ℕ → Bool
contains s room member = is_joined room (rooms_of s member)

unfoldable pub join : String → ℕ → RoomRegistry → ℕ × RoomRegistry
join room member s =
    let joined = rooms_of s member in
    let s' =
      if is_joined room joined
      then record s { joined = Dict.put ℕ_discrete member joined s.joined }
      else record {
        joined = Dict.put ℕ_discrete member (joined ++ room ∷ []) s.joined;
        rooms = Dict.put String_discrete room (members_of s room ++ member ∷ []) s.rooms;
      } in
    (member_count s' room, s')

-- `_remove_from_room`
unfoldable pub remove_from_room : String → ℕ → RoomRegistry → RoomRegistry
remove_from_room room member s = elim (Dict.get String_discrete room s.rooms) [
  | none ↦ s
  | some members ↦
      let left =
        if is_in_room member members then remove_first ℕ_discrete member members else members in
      elim left [
        | [] ↦ record s { rooms = Dict.remove String_discrete room s.rooms }
        | m ∷ ms ↦ record s { rooms = Dict.put String_discrete room (m ∷ ms) s.rooms }
      ]
]

unfoldable pub leave : String → ℕ → RoomRegistry → Bool × RoomRegistry
leave room member s =
    let joined = rooms_of s member in
    if is_joined room joined
    then (let left = remove_first String_discrete room joined in
        let s' = record s {
          joined = elim left [
            | [] ↦ Dict.remove ℕ_discrete member s.joined
            | r ∷ rs ↦ Dict.put ℕ_discrete member (r ∷ rs) s.joined
          ];
        } in
        (true, remove_from_room room member s'))
    else (false, s)

unfoldable pub remove_from_rooms : List String → ℕ → RoomRegistry → RoomRegistry
remove_from_rooms [] member s = s
remove_from_rooms (room ∷ rest) member s =
    remove_from_rooms rest member (remove_from_room room member s)

-- The rooms are visited in the order of the list; the source's is that of a frozenset.
unfoldable pub leave_all : ℕ → RoomRegistry → List String × RoomRegistry
leave_all member s =
    let rooms = rooms_of s member in
    (
      rooms,
      remove_from_rooms rooms member (record s { joined = Dict.remove ℕ_discrete member s.joined }),
    )

-- `member.offer(payload)` for every member; the result of each is a parameter.
abbrev pub is_excluded : Option ℕ → ℕ → Bool
is_excluded none m = false
is_excluded (some e) m = e == m

unfoldable pub deliver :
    (offer : ℕ → Bool) (exclude : Option ℕ) → List ℕ → RoomRegistry → ℕ × RoomRegistry
deliver offer exclude [] s = (0, s)
deliver offer exclude (m ∷ ms) s =
    let skipped = deliver offer exclude ms s in
    let taken = deliver offer exclude ms s in
    let dropped = deliver offer exclude ms (leave_all m s).1 in
    if is_excluded exclude m then skipped else if offer m then (taken.0 + 1, taken.1) else dropped

-- `broadcast` iterates over a copy of the room's list.
unfoldable pub broadcast :
    (offer : ℕ → Bool) (exclude : Option ℕ) → String → RoomRegistry → ℕ × RoomRegistry
broadcast offer exclude room s = deliver offer exclude (members_of s room) s

-- `close`: the members to remove, or everyone.
unfoldable pub drop_members : List ℕ → RoomRegistry → RoomRegistry
drop_members [] s = s
drop_members (m ∷ ms) s = drop_members ms (leave_all m s).1

unfoldable pub close : Option (List ℕ) → RoomRegistry → ℕ × RoomRegistry
close none s = let targets = map (λ e. e.0) s.joined in (length targets, drop_members targets s)
close (some targets) s = (length targets, drop_members targets s)
