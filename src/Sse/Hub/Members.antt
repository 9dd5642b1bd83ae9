-- ===== src/Sse/Hub/Members.antt =====
-- Who is subscribed to a topic after each change of the registry of src/sse/hub.py.
use boilerplate_python_fasta.Prelude.Dict
use boilerplate_python_fasta.Sse.Hub.{Hub, members, keep_members, drop_subscriber, dropped}
use boilerplate_python_fasta.Prelude.Lists.{count, remove_first, count-append, count-remove_first}
use boilerplate_python_fasta.Prelude.Dict.{Dict, or_empty}
use Prim.Native.Nat.{ℕ, suc}
use Prim.Native.String.{String, [], ◌∷◌}
use boilerplate_python_fasta.Prelude.{
  refl, ℕ, Option, String, List, ite, String_discrete, ℕ_discrete, ◌≡◌, ap, some, none, ◌+◌, ◌-◌,
  ◌++◌, [], ◌∙◌, sym, ◌∷◌, arith, ◌≢◌, ◌≤◌, inl, ◌⊎◌, inr, suc,
}
use boilerplate_python_fasta.Sse.Hub.{subscribe}

-- How often a subscriber stands under a topic.
abbrev pub places : ℕ → String → Hub → ℕ
places j t h = count ℕ_discrete j (members t h)

or_empty-ite :
    {X : Type 0}
    → (d : Dec X) (is : List ℕ) (o : Option (List ℕ))
    → or_empty (ite d (some is) o) ≡ ite d is (or_empty o)
or_empty-ite (yes p) is o = refl
or_empty-ite (no n) is o = refl

or_empty-none :
    {X : Type 0}
    → (d : Dec X) (o : Option (List ℕ)) → or_empty (ite d none o) ≡ ite d [] (or_empty o)
or_empty-none (yes p) o = refl
or_empty-none (no n) o = refl

members-put :
    (k t : String) (is : List ℕ) (d : Dict String (List ℕ))
    → or_empty (Dict.get String_discrete t (Dict.put String_discrete k is d))
      ≡ ite (String_discrete k t) is (or_empty (Dict.get String_discrete t d))
members-put k t is d =
    ap or_empty (Dict.get-put String_discrete k t is d)
    ∙ or_empty-ite (String_discrete k t) is (Dict.get String_discrete t d)

members-keep_members :
    (k t : String) (is : List ℕ) (d : Dict String (List ℕ))
    → or_empty (Dict.get String_discrete t (keep_members k is d))
      ≡ ite (String_discrete k t) is (or_empty (Dict.get String_discrete t d))
members-keep_members k t [] d =
    ap or_empty (Dict.get-remove String_discrete k t d)
    ∙ or_empty-none (String_discrete k t) (Dict.get String_discrete t d)
members-keep_members k t (i ∷ is) d = members-put k t (i ∷ is) d

pub places-subscribe :
    (topic t : String) (j : ℕ) (h : Hub)
    → places j t (subscribe topic h).1
      ≡ places j t h + (ite (String_discrete topic t) (ite (ℕ_discrete h.created j) 1 0) 0)
unfolding subscribe count
places-subscribe topic t j h =
    ap (count ℕ_discrete j) (members-put topic t (members topic h ++ h.created ∷ []) h.topics)
    ∙ elim (String_discrete topic t)
        as (λ d.
          count ℕ_discrete j (ite d (members topic h ++ h.created ∷ []) (members t h))
          ≡ places j t h + ite d (ite (ℕ_discrete h.created j) 1 0) 0) [
            | yes e ↦
                count-append ℕ_discrete j (members topic h) (h.created ∷ [])
                ∙ ground (arith, ap (λ k. places j k h) e)
            | no n ↦ omega arith
          ]

-- The registry without one place of a subscriber, if it has one.
drop_places_at :
    (k t : String) (i j : ℕ) (is : List ℕ) (d : Dict String (List ℕ))
    → Dict.get String_discrete k d ≡ some is
    → count ℕ_discrete j
        (or_empty (Dict.get String_discrete t (keep_members k (remove_first ℕ_discrete i is) d)))
      ≡ count ℕ_discrete j (or_empty (Dict.get String_discrete t d))
        - (ite (String_discrete k t) (ite (ℕ_discrete i j) 1 0) 0)
drop_places_at k t i j is d h =
    ap (count ℕ_discrete j) (members-keep_members k t (remove_first ℕ_discrete i is) d)
    ∙ elim (String_discrete k t)
        as (λ c.
          count ℕ_discrete j
            (ite c (remove_first ℕ_discrete i is) (or_empty (Dict.get String_discrete t d)))
          ≡ count ℕ_discrete j (or_empty (Dict.get String_discrete t d))
            - ite c (ite (ℕ_discrete i j) 1 0) 0) [
              | yes e ↦
                  count-remove_first ℕ_discrete i j is
                  ∙ ap (λ o. count ℕ_discrete j (or_empty o) - ite (ℕ_discrete i j) 1 0)
                      (sym h ∙ ap (λ x. Dict.get String_discrete x d) e)
              | no n ↦ omega arith
            ]

option_cases : (o : Option (List ℕ)) → (o ≡ none) ⊎ ((is : List ℕ) × (o ≡ some is))
option_cases none = inl refl
option_cases (some is) = inr (is, refl)

taken_from_none : (o : Option (List ℕ)) (j : ℕ) → o ≡ none → count ℕ_discrete j (or_empty o) ≡ 0
unfolding count
taken_from_none o j h = ap (λ p. count ℕ_discrete j (or_empty p)) h

pub places-drop_subscriber :
    (i j : ℕ) (t : String) (h : Hub)
    → places j t (drop_subscriber i h)
      ≡ places j t h
        - (ite (String_discrete (h.subscribers i).topic t) (ite (ℕ_discrete i j) 1 0) 0)
unfolding drop_subscriber
places-drop_subscriber i j t h =
    elim (option_cases (Dict.get String_discrete (h.subscribers i).topic h.topics)) [
      | inl n ↦
          ap (λ o. places j t (dropped i o h)) n
          ∙ elim (String_discrete (h.subscribers i).topic t)
              as (λ d. places j t h ≡ places j t h - ite d (ite (ℕ_discrete i j) 1 0) 0) [
                | yes e ↦ omega (
                  arith,
                  taken_from_none (Dict.get String_discrete t h.topics) j
                      (ap (λ x. Dict.get String_discrete x h.topics) (sym e) ∙ n),
                )
                | no m ↦ omega arith
              ]
      | inr (is, s) ↦
          ap (λ o. places j t (dropped i o h)) s
          ∙ drop_places_at (h.subscribers i).topic t i j is h.topics s
    ]

pub places-drop_subscriber-le :
    (i j : ℕ) (t : String) (h : Hub) → places j t (drop_subscriber i h) ≤ places j t h
places-drop_subscriber-le i j t h = omega (arith, places-drop_subscriber i j t h)

pub places-drop_other :
    (i j : ℕ) (t : String) (h : Hub) → i ≢ j → places j t (drop_subscriber i h) ≡ places j t h
places-drop_other i j t h n =
    places-drop_subscriber i j t h
    ∙ elim (ℕ_discrete i j)
        as (λ d.
          places j t h - ite (String_discrete (h.subscribers i).topic t) (ite d 1 0) 0
          ≡ places j t h) [ yes e ↦ absurd (n e) | no m ↦ ground arith ]

-- A subscription adds no place to another subscriber.
pub new_place :
    (topic t : String) (j : ℕ) (h : Hub)
    → h.created ≢ j
    → places j t (subscribe topic h).1 ≡ places j t h
new_place topic t j h n =
    places-subscribe topic t j h
    ∙ elim (String_discrete topic t)
        as (λ d. places j t h + ite d (ite (ℕ_discrete h.created j) 1 0) 0 ≡ places j t h) [
          | yes e ↦
              elim (ℕ_discrete h.created j) as (λ c. places j t h + ite c 1 0 ≡ places j t h) [
                | yes q ↦ absurd (n q)
                | no m ↦ ground arith
              ]
          | no m ↦ ground arith
        ]

-- The place of a new subscriber.
pub at_new :
    (topic : String) (h : Hub)
    → places h.created topic (subscribe topic h).1 ≡ suc (places h.created topic h)
at_new topic h =
    places-subscribe topic topic h.created h
    ∙ elim (String_discrete topic topic)
        as (λ d.
          places h.created topic h + ite d (ite (ℕ_discrete h.created h.created) 1 0) 0
          ≡ suc (places h.created topic h)) [
            | yes e ↦
                elim (ℕ_discrete h.created h.created)
                  as (λ c. places h.created topic h + ite c 1 0 ≡ suc (places h.created topic h)) [
                    | yes q ↦ omega arith
                    | no m ↦ absurd (m refl)
                  ]
            | no m ↦ absurd (m refl)
          ]

pub elsewhere_new :
    (topic t : String) (h : Hub)
    → t ≢ topic
    → places h.created t (subscribe topic h).1 ≡ places h.created t h
elsewhere_new topic t h n =
    places-subscribe topic t h.created h
    ∙ elim (String_discrete topic t)
        as (λ d.
          places h.created t h + ite d (ite (ℕ_discrete h.created h.created) 1 0) 0
          ≡ places h.created t h) [ yes e ↦ absurd (n (sym e)) | no m ↦ omega arith ]
