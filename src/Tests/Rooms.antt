-- ===== src/Tests/Rooms.antt =====
-- Runs of the rooms of src/ws/rooms.py.
use boilerplate_python_fasta.Prelude.{
  refl, [], ◌∷◌, none, some, true, false, arith, ℕ, List, ◌++◌, ◌≡◌, Bool, ◌↔◌, length, ◌≤◌, not,
  if◌then◌else◌, ◌==◌,
}
use boilerplate_python_fasta.Prelude.Pattern.{chomp}
use boilerplate_python_fasta.Ws.RoomName.{validate_room_name, accepted}
use boilerplate_python_fasta.Ws.RoomName.Accepted.{
  validate_room_name_iff, newline_accepted, well_formed,
}
use boilerplate_python_fasta.Ws.Rooms.{init, broadcast, members_of, RoomRegistry}
use boilerplate_python_fasta.Ws.Rooms.Effects.{in_room, in_joined}
use boilerplate_python_fasta.Ws.Rooms.Invariant.{
  Call, enter, exit, exit_all, publish, shut, run, run-IsConsistent, IsConsistent,
}
use boilerplate_python_fasta.Ws.Rooms.Broadcast.{broadcast_lem, takers, fails}

abbrev visits : List Call
visits =
    enter "lobby" 1
    ∷ enter "lobby" 2
    ∷ enter "news" 2
    ∷ enter "lobby" 3
    ∷ exit "lobby" 1
    ∷ enter "lobby" 1
    ∷ []

abbrev lobby : RoomRegistry
lobby = run visits init

-- The second member takes nothing any more.
abbrev takes : ℕ → Bool
takes m = not (m == 2)

abbrev room_name : List ℕ
room_name = b'a' ∷ b'-' ∷ b'1' ∷ []

run-IsConsistent_example : IsConsistent (
    run
      (enter "lobby" 1 ∷ enter "news" 1 ∷ publish takes none "lobby" ∷ exit_all 1 ∷ shut none ∷ [])
      init)
run-IsConsistent_example =
    run-IsConsistent
      (enter "lobby" 1 ∷ enter "news" 1 ∷ publish takes none "lobby" ∷ exit_all 1 ∷ shut none ∷ [])

broadcast_lem_example :
    ((broadcast takes (some 3) "lobby" lobby).0
      ≡ length (takers takes (some 3) (members_of lobby "lobby")))
    × (in_joined (broadcast takes (some 3) "lobby" lobby).1 "news" 2 ≡ (
        if fails takes (some 3) (members_of lobby "lobby") 2 then 0 else in_joined lobby "news" 2))
    × (in_room (broadcast takes (some 3) "lobby" lobby).1 "news" 2
        ≡ (if fails takes (some 3) (members_of lobby "lobby") 2 then 0 else in_room lobby "news" 2))
broadcast_lem_example =
    broadcast_lem takes (some 3) "lobby" "news" 2 lobby (run-IsConsistent visits)

validate_room_name_iff_example :
    (validate_room_name room_name ≡ accepted room_name)
    ↔ ((length room_name ≤ 64) × (well_formed (chomp room_name) ≡ true))
validate_room_name_iff_example = validate_room_name_iff room_name

newline_accepted_example :
    (validate_room_name (room_name ++ 10 ∷ []) ≡ accepted (room_name ++ 10 ∷ []))
    × (well_formed (room_name ++ 10 ∷ []) ≡ false)
newline_accepted_example = newline_accepted room_name (omega arith) refl
