-- ===== src/Event/Registered.antt =====
-- Which sources are registered for an event after each operation of the mediator.
use Prim.Native.String.{String}
use xstack.Base.{
  ℕ, arith, ◌≡◌, ◌≢◌, refl, sym, ◌∙◌, List, [], ◌∷◌, Option, none, some, ite, ℕ_discrete, contains,
  if◌then◌else◌, Option-cases, inl, inr,
}
use xstack.Base.Map
use xstack.Base.Map.{Map, IsMap, get-insert, get-remove, insert-IsMap, remove-IsMap}
use xstack.Base.Text.{text_discrete}
use xstack.Event.Mediator.{
  Senders, with_sender, bind, senders_of, remove_all, write, without, close_in,
}

-- The channel of a source that is registered for an event.
abbrev pub registered : Senders → String → ℕ → Option ℕ
registered raw n i = Map.get ℕ_discrete i (senders_of (Map.get text_discrete n raw))

get-with_sender :
    (o : Option (Map ℕ ℕ)) (i j : ℕ)
    → Map.get ℕ_discrete j (with_sender o i)
      ≡ ite (ℕ_discrete i j) (some i) (Map.get ℕ_discrete j (senders_of o))
unfolding Map.get
get-with_sender none i j = refl
get-with_sender (some senders) i j = get-insert ℕ_discrete i j i senders

pub registered-bind :
    (raw : Senders) (i j : ℕ) (n n' : String)
    → registered (bind raw i n) n' j
      ≡ ite
          (text_discrete n n')
          (ite (ℕ_discrete i j) (some i) (registered raw n j))
          (registered raw n' j)
unfolding bind
registered-bind raw i j n n' = ground (
  arith,
  get-insert text_discrete n n' (with_sender (Map.get text_discrete n raw) i) raw,
  get-with_sender (Map.get text_discrete n raw) i j,
)

get-remove_all :
    (ids : List ℕ) (senders : Map ℕ ℕ) (j : ℕ)
    → Map.get ℕ_discrete j (remove_all ids senders)
      ≡ (if contains ℕ_discrete ids j then none else Map.get ℕ_discrete j senders)
unfolding remove_all
get-remove_all [] senders j = refl
get-remove_all (i ∷ ids) senders j = ground (
  arith,
  get-remove_all ids (Map.remove ℕ_discrete i senders) j,
  get-remove ℕ_discrete i j senders,
)

pub registered-write :
    (raw : Senders) (ids : List ℕ) (n n' : String) (j : ℕ)
    → registered (write raw n (without ids (Map.get text_discrete n raw))) n' j
      ≡ ite
          (text_discrete n n')
          (if contains ℕ_discrete ids j then none else registered raw n j)
          (registered raw n' j)
unfolding Map.get
registered-write raw ids n n' j = elim (Option-cases (Map.get text_discrete n raw)) [
  | inl e ↦ ground (arith, e)
  | inr (senders, e) ↦ ground (
    arith,
    e,
    get-insert text_discrete n n' (remove_all ids senders) raw,
    get-remove_all ids senders j,
  )
]

-- A source is registered for one event at most.
abbrev pub IsHome : Senders → ℕ → String → Type 0
IsHome raw i home = (n : String) (c : ℕ) → registered raw n i ≡ some c → n ≡ home

registered-cons :
    (n0 n : String) (senders : Map ℕ ℕ) (raw : Senders) (j : ℕ)
    → registered ((n0, senders) ∷ raw) n j
      ≡ ite (text_discrete n0 n) (Map.get ℕ_discrete j senders) (registered raw n j)
unfolding Map.get
registered-cons n0 n senders raw j = ground arith

unregistered_elsewhere :
    (n0 n home : String) (senders : Map ℕ ℕ) (raw : Senders) (i c : ℕ)
    → IsHome ((n0, senders) ∷ raw) i home
    → Map.get ℕ_discrete i senders ≡ some c
    → n0 ≢ n
    → registered raw n i ≡ none
unregistered_elsewhere n0 n home senders raw i c only e apart =
    elim (Option-cases (registered raw n i)) [
      | inl free ↦ free
      | inr (c', e') ↦ absurd (
          apart (
            only n0 c (ground (arith, e, registered-cons n0 n0 senders raw i))
            ∙ sym (only n c' (ground (arith, e', apart, registered-cons n0 n senders raw i)))))
    ]

IsHome-tail :
    (n0 home : String) (senders : Map ℕ ℕ) (raw : Senders) (i : ℕ)
    → Map.get text_discrete n0 raw ≡ none
    → IsHome ((n0, senders) ∷ raw) i home
    → IsHome raw i home
unfolding Map.get
IsHome-tail n0 home senders raw i new only =
    λ n c e. only n c (ground (arith, e, new, registered-cons n0 n senders raw i))

pub registered-close_in :
    (raw : Senders) (i : ℕ) (home n : String) (j : ℕ)
    → IsMap text_discrete raw
    → IsHome raw i home
    → registered (close_in i raw) n j ≡ ite (ℕ_discrete i j) none (registered raw n j)
unfolding close_in Map.get
registered-close_in [] i home n j u only = ground arith
registered-close_in ((n0, senders) ∷ raw) i home n j (new, u) only =
    elim (Option-cases (Map.get ℕ_discrete i senders)) [
      | inl e ↦
          rw
            (
              close_in,
              e,
              registered-cons n0 n senders (close_in i raw) j,
              registered-cons n0 n senders raw j,
            )
            (ground (
              arith,
              e,
              registered-close_in raw i home n j u (IsHome-tail n0 home senders raw i new only),
            ))
      | inr (c, e) ↦
          rw
            (
              close_in,
              e,
              registered-cons n0 n (Map.remove ℕ_discrete i senders) raw j,
              registered-cons n0 n senders raw j,
            )
            (elim (text_discrete n0 n) [
              | yes same ↦ ground (arith, same, get-remove ℕ_discrete i j senders)
              | no apart ↦
                  ground
                    (arith, apart, unregistered_elsewhere n0 n home senders raw i c only e apart)
            ])
    ]
