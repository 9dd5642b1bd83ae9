-- ===== src/Ws/Rooms/Effects.antt =====
-- What each operation does to the two indexes of the registry (src/ws/rooms.py).
use boilerplate_python_fasta.Prelude.Dict
use boilerplate_python_fasta.Prelude.Dict.{get-put, get-remove, Dict, or_empty}
use boilerplate_python_fasta.Ws.Rooms.{
  remove_from_room, RoomRegistry, members_of, String, rooms_of, is_in_room, leave, join, is_joined,
  leave_all, remove_from_rooms,
}
use boilerplate_python_fasta.Prelude.{
  refl, String, ℕ, ◌≡◌, count, String_discrete, ◌-◌, ℕ_discrete, ite, List, arith, Option,
  if◌then◌else◌, ◌∷◌, count-remove_first, remove_first, none, [], some, ◌+◌, ◌++◌, count-append,
  Bool-cases, inl, inr, ◌∙◌, ap,
}

-- How often a member stands in a room's list, and a room in a member's set.
abbrev pub in_room : RoomRegistry → String → ℕ → ℕ
in_room s r m = count ℕ_discrete m (members_of s r)

abbrev pub in_joined : RoomRegistry → String → ℕ → ℕ
in_joined s r m = count String_discrete r (rooms_of s m)

abbrev without : ℕ → List ℕ → List ℕ
without m ms = if is_in_room m ms then remove_first ℕ_discrete m ms else ms

count-without :
    (a b : ℕ) (ms : List ℕ)
    → count ℕ_discrete b (without a ms) ≡ count ℕ_discrete b ms - ite (ℕ_discrete a b) 1 0
count-without a b ms = ground (arith, count-remove_first ℕ_discrete a b ms)

module _ (room r : String) (member : ℕ) (joined : Dict ℕ (List String))
    (rooms : Dict String (List ℕ)) where
  abbrev kept : List ℕ → RoomRegistry
  kept left = elim left [
    | [] ↦ record { joined = joined; rooms = Dict.remove String_discrete room rooms }
    | m ∷ ms ↦ record { joined = joined; rooms = Dict.put String_discrete room (m ∷ ms) rooms }
  ]

  members_of-kept :
      (left : List ℕ)
      → members_of (kept left) r
        ≡ ite (String_discrete room r) left (or_empty (Dict.get String_discrete r rooms))
  unfolding members_of
  members_of-kept [] = ground (arith, get-remove {V = List ℕ} String_discrete room r rooms)
  members_of-kept (m ∷ ms) = ground (arith, get-put String_discrete room r (m ∷ ms) rooms)

  removal :
      (found : Option (List ℕ))
      → Dict.get String_discrete room rooms ≡ found
      → members_of
          (elim found [
            | none ↦ record { joined = joined; rooms = rooms }
            | some members ↦ kept (without member members)
          ])
          r
        ≡ ite
            (String_discrete room r)
            (without member (or_empty found))
            (or_empty (Dict.get String_discrete r rooms))
  unfolding members_of count
  removal none e = ground arith
  removal (some members) e = members_of-kept (without member members)

members_of-remove_from_room :
    (room r : String) (member : ℕ) (s : RoomRegistry)
    → members_of (remove_from_room room member s) r
      ≡ ite (String_discrete room r) (without member (members_of s room)) (members_of s r)
unfolding remove_from_room members_of
members_of-remove_from_room room r member s =
    removal room r member s.joined s.rooms (Dict.get String_discrete room s.rooms) refl

-- 1 for the pair of a room and a member, 0 for any other.
abbrev pub at_pair : String → ℕ → String → ℕ → ℕ
at_pair room member r m = ite (String_discrete room r) (ite (ℕ_discrete member m) 1 0) 0

module _ (room r : String) (member m : ℕ) (s : RoomRegistry) where
  pub in_room-remove_from_room :
      in_room (remove_from_room room member s) r m ≡ in_room s r m - at_pair room member r m
  in_room-remove_from_room = ground (
    arith,
    members_of-remove_from_room room r member s,
    count-without member m (members_of s room),
  )

  pub in_joined-remove_from_room : in_joined (remove_from_room room member s) r m ≡ in_joined s r m
  unfolding remove_from_room rooms_of
  in_joined-remove_from_room = ground arith

  joined_put :
      (rs : List String) (rooms : Dict String (List ℕ))
      → rooms_of (record { rooms = rooms; joined = Dict.put ℕ_discrete member rs s.joined }) m
        ≡ ite (ℕ_discrete member m) rs (rooms_of s m)
  unfolding rooms_of
  joined_put rs rooms = ground (arith, get-put ℕ_discrete member m rs s.joined)

  rooms_put :
      (ms : List ℕ) (joined : Dict ℕ (List String))
      → members_of (record { rooms = Dict.put String_discrete room ms s.rooms; joined = joined }) r
        ≡ ite (String_discrete room r) ms (members_of s r)
  unfolding members_of
  rooms_put ms joined = ground (arith, get-put String_discrete room r ms s.rooms)

  joined_removed :
      (rooms : Dict String (List ℕ))
      → rooms_of (record { rooms = rooms; joined = Dict.remove ℕ_discrete member s.joined }) m
        ≡ ite (ℕ_discrete member m) [] (rooms_of s m)
  unfolding rooms_of
  joined_removed rooms = ground (arith, get-remove {V = List String} ℕ_discrete member m s.joined)

  -- Joining adds the pair to both indexes, or changes neither.
  pub in_room-join :
      in_room (join room member s).1 r m
      ≡ in_room s r m + (if is_joined room (rooms_of s member) then 0 else at_pair room member r m)
  unfolding join
  in_room-join = elim (Bool-cases (is_joined room (rooms_of s member))) [
    | inl e ↦ rw e (unfold members_of in omega arith)
    | inr e ↦ rw e (
        unfold count in
        ground (
          arith,
          rooms_put (members_of s room ++ member ∷ [])
              (Dict.put ℕ_discrete member (rooms_of s member ++ room ∷ []) s.joined),
          count-append ℕ_discrete m (members_of s room) (member ∷ []),
        ))
  ]

  pub in_joined-join :
      in_joined (join room member s).1 r m
      ≡ in_joined s r m
        + (if is_joined room (rooms_of s member) then 0 else at_pair room member r m)
  unfolding join
  in_joined-join = elim (Bool-cases (is_joined room (rooms_of s member))) [
    | inl e ↦ rw e (unfold count in ground (arith, joined_put (rooms_of s member) s.rooms))
    | inr e ↦ rw e (
        unfold count in
        ground (
          arith,
          joined_put (rooms_of s member ++ room ∷ [])
              (Dict.put String_discrete room (members_of s room ++ member ∷ []) s.rooms),
          count-append String_discrete r (rooms_of s member) (room ∷ []),
        ))
  ]

-- The set of a member after `leave`, stored unless it is empty.
abbrev store : List String → ℕ → RoomRegistry → RoomRegistry
store left member s = record s {
  joined = elim left [
    | [] ↦ Dict.remove ℕ_discrete member s.joined
    | r ∷ rs ↦ Dict.put ℕ_discrete member (r ∷ rs) s.joined
  ];
}

rooms_of-store :
    (left : List String) (member m : ℕ) (s : RoomRegistry)
    → rooms_of (store left member s) m ≡ ite (ℕ_discrete member m) left (rooms_of s m)
unfolding rooms_of
rooms_of-store [] member m s =
    ground (arith, get-remove {V = List String} ℕ_discrete member m s.joined)
rooms_of-store (r ∷ rs) member m s = ground (arith, get-put ℕ_discrete member m (r ∷ rs) s.joined)

in_room-store :
    (left : List String) (room : String) (member m : ℕ) (s : RoomRegistry)
    → in_room (store left member s) room m ≡ in_room s room m
unfolding members_of
in_room-store left room member m s = refl

module _ (room r : String) (member m : ℕ) (s : RoomRegistry) where
  pub in_room-leave :
      in_room (leave room member s).1 r m
      ≡ in_room s r m - (if is_joined room (rooms_of s member) then at_pair room member r m else 0)
  unfolding leave
  in_room-leave =
      let left = remove_first String_discrete room (rooms_of s member) in
      elim (Bool-cases (is_joined room (rooms_of s member))) [
        | inl e ↦ rw e (
            in_room-remove_from_room room r member m (store left member s)
            ∙ ap (λ (n : ℕ). n - at_pair room member r m) (in_room-store left r member m s))
        | inr e ↦ rw e (omega arith)
      ]

  pub in_joined-leave :
      in_joined (leave room member s).1 r m ≡ in_joined s r m - at_pair room member r m
  unfolding leave
  in_joined-leave =
      let left = remove_first String_discrete room (rooms_of s member) in
      elim (Bool-cases (is_joined room (rooms_of s member))) [
        | inl e ↦ rw e (
            in_joined-remove_from_room room r member m (store left member s)
            ∙ (unfold count in
                ground (
                  arith,
                  rooms_of-store left member m s,
                  count-remove_first String_discrete room r (rooms_of s member),
                )))
        | inr e ↦ rw e (ground arith)
      ]

module _ (r : String) (member m : ℕ) where
  in_room-remove_from_rooms :
      (rs : List String) (s : RoomRegistry)
      → in_room (remove_from_rooms rs member s) r m
        ≡ in_room s r m - ite (ℕ_discrete member m) (count String_discrete r rs) 0
  unfolding remove_from_rooms count
  in_room-remove_from_rooms [] s = ground arith
  in_room-remove_from_rooms (room ∷ rs) s = ground (
    arith,
    in_room-remove_from_rooms rs (remove_from_room room member s),
    in_room-remove_from_room room r member m s,
  )

  in_joined-remove_from_rooms :
      (rs : List String) (s : RoomRegistry)
      → in_joined (remove_from_rooms rs member s) r m ≡ in_joined s r m
  unfolding remove_from_rooms
  in_joined-remove_from_rooms [] s = refl
  in_joined-remove_from_rooms (room ∷ rs) s =
      in_joined-remove_from_rooms rs (remove_from_room room member s)
      ∙ in_joined-remove_from_room room r member m s

  pub in_room-leave_all :
      (s : RoomRegistry)
      → in_room (leave_all member s).1 r m
        ≡ in_room s r m - ite (ℕ_discrete member m) (in_joined s r member) 0
  unfolding leave_all members_of
  in_room-leave_all s = in_room-remove_from_rooms (rooms_of s member) _

  pub in_joined-leave_all :
      (s : RoomRegistry)
      → in_joined (leave_all member s).1 r m ≡ ite (ℕ_discrete member m) 0 (in_joined s r m)
  unfolding leave_all count
  in_joined-leave_all s =
      in_joined-remove_from_rooms (rooms_of s member) _
      ∙ (ground (arith, joined_removed r r member m s s.rooms))
