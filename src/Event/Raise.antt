-- ===== src/Event/Raise.antt =====
-- What `raise` and `close` of the mediator leave registered, after any history.
use Prim.Native.String.{String}
use xstack.Base.{
  ℕ, arith, ◌≡◌, refl, sym, ap, ◌∙◌, List, [], ◌∷◌, Option, none, some, ite, ℕ_discrete, contains,
  true, false, Bool, if◌then◌else◌, Option-cases, inl, inr, All, All-map, Bool-cases,
}
use xstack.Base.Map
use xstack.Base.Map.{Map, get-All}
use xstack.Base.Text.{text_discrete}
use xstack.Event.{Event, Kind, name, to_name, Sent, accepted, full, disconnected}
use xstack.Event.Mediator.{Mediator, senders_of, raise, send_all, prune, close, gone, note}
use xstack.Event.Registered.{registered, registered-write, registered-close_in}
use xstack.Event.Typed.{IsTyped, IsRegistration, senders-All}

abbrev pub home_of : Option Kind → String
home_of none = ""
home_of (some k) = name k

-- Whether `raise` removes a source, by what its channel answers.
abbrev pub is_gone : Sent → Bool
is_gone disconnected = true
is_gone _ = false

abbrev pub gone_at : (ℕ → Sent) → Option ℕ → Bool
gone_at answer none = false
gone_at answer (some c) = is_gone (answer c)

own_channel :
    (senders : Map ℕ ℕ) (j c : ℕ)
    → All (λ (x : ℕ × ℕ). x.1 ≡ x.0) senders
    → Map.get ℕ_discrete j senders ≡ some c
    → c ≡ j
own_channel senders j c own e = get-All ℕ_discrete (λ (x : ℕ × ℕ). x.1 ≡ x.0) j c senders own e

module _ {PeerId : Type 0} where
  registered-IsRegistration :
      (m : Mediator PeerId) (n : String) (i c : ℕ)
      → IsTyped m
      → registered m.raw n i ≡ some c
      → IsRegistration m n (i, c)
  registered-IsRegistration m n i c v e =
      get-All ℕ_discrete (IsRegistration m n) i c (senders_of (Map.get text_discrete n m.raw))
        (senders-All m n v) e

  -- After `close` the source is registered for no event, although the loop ends at the first removal,
  -- and every other registration is as it was.
  pub close_lem :
      (m : Mediator PeerId) (i j : ℕ) (n : String)
      → IsTyped m
      → registered (close m i).raw n j ≡ ite (ℕ_discrete i j) none (registered m.raw n j)
  unfolding close
  close_lem m i j n v =
      registered-close_in m.raw i (home_of (Map.get ℕ_discrete i m.sources)) n j v.unique (λ n' c e.
        let ((k, s, same), own) = registered-IsRegistration m n' i c v e in
        sym same ∙ ap home_of (sym s))

  contains-note :
      (answer : ℕ → Sent) (e : Event PeerId) (i j : ℕ) (a : Sent) (ids : List ℕ)
      → contains ℕ_discrete (note answer e i a ids) j
        ≡ ite
            (ℕ_discrete i j)
            (if is_gone a then true else contains ℕ_discrete ids j)
            (contains ℕ_discrete ids j)
  contains-note answer e i j accepted ids = ground arith
  contains-note answer e i j full ids = ground arith
  contains-note answer e i j disconnected ids = ground arith

  contains-gone :
      (answer : ℕ → Sent) (e : Event PeerId) (senders : Map ℕ ℕ) (j : ℕ)
      → All (λ (x : ℕ × ℕ). x.1 ≡ x.0) senders
      → contains ℕ_discrete (gone answer e senders) j
        ≡ gone_at answer (Map.get ℕ_discrete j senders)
  unfolding gone Map.get
  contains-gone answer e [] j own = refl
  contains-gone answer e ((i, c) ∷ senders) j (here, rest) =
      let next = contains-gone answer e senders j rest in
      rw (contains-note answer e i j (answer c) (gone answer e senders)) (elim (ℕ_discrete i j) [
        | yes same ↦ elim (Option-cases (Map.get ℕ_discrete j senders)) [
          | inl last ↦ elim (Bool-cases (is_gone (answer c))) [
            | inl g ↦ ground (arith, next, same, last, g)
            | inr g ↦ ground (arith, next, same, last, g)
          ]
          | inr (c', f) ↦
              let twin : c' ≡ c = own_channel senders j c' rest f ∙ sym same ∙ sym here in
              elim (Bool-cases (is_gone (answer c))) [
                | inl g ↦ ground (arith, next, same, f, g)
                | inr g ↦ ground (arith, next, same, f, g, ap (λ k. is_gone (answer k)) twin)
              ]
        ]
        | no other ↦ ground (arith, next, other)
      ])

  -- After `raise` a source is no longer registered for the event if its channel was gone, and every
  -- other registration, a full channel's included, is as it was.
  pub raise_lem :
      (answer : ℕ → Sent) (m : Mediator PeerId) (e : Event PeerId) (n : String) (j : ℕ)
      → IsTyped m
      → registered (raise answer m e).raw n j
        ≡ ite
            (text_discrete (to_name e) n)
            (if gone_at answer (registered m.raw (to_name e) j)
              then none
              else registered m.raw (to_name e) j)
            (registered m.raw n j)
  unfolding raise send_all prune
  raise_lem answer m e n j v =
      let senders = senders_of (Map.get text_discrete (to_name e) m.raw) in
      let own =
        All-map (IsRegistration m (to_name e)) (λ (x : ℕ × ℕ). x.1 ≡ x.0) (λ x r. r.1) senders
          (senders-All m (to_name e) v) in
      rw
        (
          registered-write m.raw (gone answer e senders) (to_name e) n j,
          contains-gone answer e senders j own,
        )
        refl
