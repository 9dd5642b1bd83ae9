-- ===== src/Ws/Rooms/Broadcast.antt =====
-- Who receives a broadcast, and who is dropped for it (src/ws/rooms.py).
use boilerplate_python_fasta.Prelude.{
  refl, [], ℕ, Bool, Option, String, List, count, ◌∷◌, ltb, ℕ_discrete, ◌≡◌, if◌then◌else◌, ◌&&◌,
  not, length, arith,
}
use boilerplate_python_fasta.Ws.Rooms.{
  broadcast, deliver, RoomRegistry, members_of, is_excluded, leave_all,
}
use boilerplate_python_fasta.Ws.Rooms.Effects.{in_joined, in_room, in_joined-leave_all}
use boilerplate_python_fasta.Ws.Rooms.Invariant.{IsConsistent, deliver-IsConsistent}

-- A member of `ms` that is to receive the payload and whose queue is full.
abbrev pub fails : (offer : ℕ → Bool) (exclude : Option ℕ) → List ℕ → ℕ → Bool
fails offer exclude ms m =
    ltb 0 (count ℕ_discrete m ms) && not (is_excluded exclude m) && not (offer m)

-- The members of `ms` that are to receive the payload and take it.
abbrev pub takers : (offer : ℕ → Bool) (exclude : Option ℕ) → List ℕ → List ℕ
takers offer exclude [] = []
takers offer exclude (m ∷ ms) =
    if not (is_excluded exclude m) && offer m
    then m ∷ takers offer exclude ms
    else takers offer exclude ms

module _ (offer : ℕ → Bool) (exclude : Option ℕ) where
  deliver_counts :
      (ms : List ℕ) (s : RoomRegistry)
      → (deliver offer exclude ms s).0 ≡ length (takers offer exclude ms)
  unfolding deliver
  deliver_counts [] s = refl
  deliver_counts (m ∷ ms) s =
      ground (arith, deliver_counts ms s, deliver_counts ms (leave_all m s).1)

  deliver_keeps :
      (ms : List ℕ) (s : RoomRegistry) (r : String) (m : ℕ)
      → in_joined (deliver offer exclude ms s).1 r m
        ≡ (if fails offer exclude ms m then 0 else in_joined s r m)
  unfolding deliver count
  deliver_keeps [] s r m = refl
  deliver_keeps (x ∷ ms) s r m = ground (
    arith,
    deliver_keeps ms s r m,
    deliver_keeps ms (leave_all x s).1 r m,
    in_joined-leave_all r x m s,
  )

-- A broadcast is delivered to the members of the room that are not excluded and take it, and its
-- result is their number. A member that does not take it is afterwards in no room at all, and every
-- other member is in the rooms where it was.
pub broadcast_lem :
    (offer : ℕ → Bool) (exclude : Option ℕ) (room r : String) (m : ℕ) (s : RoomRegistry)
    → IsConsistent s
    → ((broadcast offer exclude room s).0 ≡ length (takers offer exclude (members_of s room)))
      × (in_joined (broadcast offer exclude room s).1 r m
          ≡ (if fails offer exclude (members_of s room) m then 0 else in_joined s r m))
      × (in_room (broadcast offer exclude room s).1 r m
          ≡ (if fails offer exclude (members_of s room) m then 0 else in_room s r m))
unfolding broadcast
broadcast_lem offer exclude room r m s c =
    let kept = deliver_keeps offer exclude (members_of s room) s r m in
    let after = deliver-IsConsistent offer exclude (members_of s room) s c in
    (
      deliver_counts offer exclude (members_of s room) s,
      kept,
      ground (arith, kept, after.agree r m, c.agree r m),
    )
