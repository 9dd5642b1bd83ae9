-- ===== src/Ws/Rooms/Invariant.antt =====
-- The two indexes of the registry agree (src/ws/rooms.py).
use boilerplate_python_fasta.Prelude.Dict
use boilerplate_python_fasta.Prelude.{
  refl, [], none, some, String, ℕ, count, ◌≡◌, arith, ◌≤◌, Bool, List, Option, ◌∷◌, Bool-cases, inl,
  inr,
}
use boilerplate_python_fasta.Ws.Rooms.{
  RoomRegistry, members_of, rooms_of, join, leave_all, leave, init, drop_members, deliver,
  broadcast, close, is_excluded,
}
use boilerplate_python_fasta.Ws.Rooms.Effects.{
  in_room, in_room-leave, in_room-join, in_joined, in_room-leave_all, in_joined-join,
  in_joined-leave_all, in_joined-leave,
}

-- A member stands in a room's list as often as the room in the member's set, and at most once.
pub record IsConsistent (s : RoomRegistry) : Type 0 where
  pub agree : (r : String) (m : ℕ) → in_room s r m ≡ in_joined s r m
  pub once : (r : String) (m : ℕ) → in_joined s r m ≤ 1

pub init-IsConsistent : IsConsistent init
unfolding count members_of rooms_of Dict.get
init-IsConsistent = record { agree = λ r m. refl; once = λ r m. omega arith }

module _ (s : RoomRegistry) (c : IsConsistent s) where
  pub join-IsConsistent : (room : String) (member : ℕ) → IsConsistent (join room member s).1
  join-IsConsistent room member = record {
    agree = λ r m.
        omega
          (arith, in_room-join room r member m s, in_joined-join room r member m s, c.agree r m);
    once = λ r m. ground (arith, in_joined-join room r member m s, c.once r m);
  }

  pub leave-IsConsistent : (room : String) (member : ℕ) → IsConsistent (leave room member s).1
  leave-IsConsistent room member = record {
    agree = λ r m.
        ground
          (arith, in_room-leave room r member m s, in_joined-leave room r member m s, c.agree r m);
    once = λ r m. omega (arith, in_joined-leave room r member m s, c.once r m);
  }

  pub leave_all-IsConsistent : (member : ℕ) → IsConsistent (leave_all member s).1
  leave_all-IsConsistent member = record {
    agree = λ r m.
        ground
          (arith, in_room-leave_all r member m s, in_joined-leave_all r member m s, c.agree r m);
    once = λ r m. ground (arith, in_joined-leave_all r member m s, c.once r m);
  }

-- One call of a method; a broadcast comes with what each member's `offer` would answer.
pub data Call : Type 0 where
  enter exit : String → ℕ → Call
  exit_all : ℕ → Call
  publish : (offer : ℕ → Bool) (exclude : Option ℕ) → String → Call
  shut : Option (List ℕ) → Call

unfoldable pub perform : Call → RoomRegistry → RoomRegistry
perform (enter room member) s = (join room member s).1
perform (exit room member) s = (leave room member s).1
perform (exit_all member) s = (leave_all member s).1
perform (publish offer exclude room) s = (broadcast offer exclude room s).1
perform (shut targets) s = (close targets s).1

unfoldable pub run : List Call → RoomRegistry → RoomRegistry
run [] s = s
run (call ∷ rest) s = run rest (perform call s)

pub deliver-IsConsistent :
    (offer : ℕ → Bool) (exclude : Option ℕ) (ms : List ℕ) (s : RoomRegistry)
    → IsConsistent s
    → IsConsistent (deliver offer exclude ms s).1
unfolding deliver
deliver-IsConsistent offer exclude [] s c = c
deliver-IsConsistent offer exclude (m ∷ ms) s c = elim (Bool-cases (is_excluded exclude m)) [
  | inl e ↦ rw e (deliver-IsConsistent offer exclude ms s c)
  | inr e ↦ rw e (elim (Bool-cases (offer m)) [
    | inl o ↦ rw o (deliver-IsConsistent offer exclude ms s c)
    | inr o ↦
        rw o
          (deliver-IsConsistent offer exclude ms (leave_all m s).1 (leave_all-IsConsistent s c m))
  ])
]

drop_members-IsConsistent :
    (ms : List ℕ) (s : RoomRegistry) → IsConsistent s → IsConsistent (drop_members ms s)
unfolding drop_members
drop_members-IsConsistent [] s c = c
drop_members-IsConsistent (m ∷ ms) s c =
    drop_members-IsConsistent ms (leave_all m s).1 (leave_all-IsConsistent s c m)

perform-IsConsistent :
    (call : Call) (s : RoomRegistry) → IsConsistent s → IsConsistent (perform call s)
unfolding perform broadcast close
perform-IsConsistent (enter room member) s c = join-IsConsistent s c room member
perform-IsConsistent (exit room member) s c = leave-IsConsistent s c room member
perform-IsConsistent (exit_all member) s c = leave_all-IsConsistent s c member
perform-IsConsistent (publish offer exclude room) s c =
    deliver-IsConsistent offer exclude (members_of s room) s c
perform-IsConsistent (shut none) s c = drop_members-IsConsistent _ s c
perform-IsConsistent (shut (some targets)) s c = drop_members-IsConsistent targets s c

run_keeps : (calls : List Call) (s : RoomRegistry) → IsConsistent s → IsConsistent (run calls s)
unfolding run
run_keeps [] s c = c
run_keeps (call ∷ rest) s c = run_keeps rest (perform call s) (perform-IsConsistent call s c)

-- After any calls, the two indexes agree: a member stands in the list of a room exactly if the room
-- is in the set of the member, and no member stands twice in a room.
pub run-IsConsistent : (calls : List Call) → IsConsistent (run calls init)
run-IsConsistent calls = run_keeps calls init init-IsConsistent
