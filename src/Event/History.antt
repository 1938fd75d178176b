-- ===== src/Event/History.antt =====
-- Any history of the mediator and its sources.
use Prim.Native.String.{String}
use xstack.Base.{
  ℕ, arith, ◌≡◌, refl, subst, List, [], ◌∷◌, Option, none, some, ite, ℕ_discrete, All, All-append,
  Option-cases, inl, inr,
}
use xstack.Base.Map
use xstack.Base.Map.{Map, IsMap, get-All, insert-All, remove-All, insert-IsMap}
use xstack.Base.Outcome.{done}
use xstack.Base.Text.{text_discrete}
use xstack.Event.{Event, Kind, to_name, Sent, accepted, full, disconnected, Argument}
use xstack.Event.Mediator.{
  Mediator, Senders, bind_with, senders_of, sent, push, send_all, remove_all, prune, close_in,
  close, receive, argument, poll_next, start,
}
use xstack.Event.Typed.{
  IsRegistration, IsEntry, IsMessage, IsTyped, senders-All, bind_with-IsTyped, start-IsTyped,
  into-IsArgument_total,
}

remove_all-All :
    (P : ℕ × ℕ → Type 0) (ids : List ℕ) (senders : Map ℕ ℕ)
    → All P senders
    → All P (remove_all ids senders)
unfolding remove_all
remove_all-All P [] senders h = h
remove_all-All P (i ∷ ids) senders h =
    remove_all-All P ids (Map.remove ℕ_discrete i senders) (remove-All ℕ_discrete P i senders h)

-- The keys are unique in what `close` leaves, since it changes no key.
get-close_in :
    (i : ℕ) (n : String) (raw : Senders)
    → Map.get text_discrete n raw ≡ none
    → Map.get text_discrete n (close_in i raw) ≡ none
unfolding close_in Map.get
get-close_in i n [] e = refl
get-close_in i n ((n0, senders) ∷ raw) e = elim (Option-cases (Map.get ℕ_discrete i senders)) [
  | inl f ↦ rw (close_in, f) (ground (arith, e, get-close_in i n raw))
  | inr (c, f) ↦ rw (close_in, f) (ground (arith, e))
]

close_in-IsMap :
    (i : ℕ) (raw : Senders) → IsMap text_discrete raw → IsMap text_discrete (close_in i raw)
unfolding close_in
close_in-IsMap i [] u = tt
close_in-IsMap i ((n0, senders) ∷ raw) (new, u) =
    elim (Option-cases (Map.get ℕ_discrete i senders)) [
      | inl f ↦ rw (close_in, f) (get-close_in i n0 raw new, close_in-IsMap i raw u)
      | inr (c, f) ↦ rw (close_in, f) (new, u)
    ]

close_in-All :
    (P : (n : String) → ℕ × ℕ → Type 0) (i : ℕ) (raw : Senders)
    → All (λ (x : String × Map ℕ ℕ). All (P x.0) x.1) raw
    → All (λ (x : String × Map ℕ ℕ). All (P x.0) x.1) (close_in i raw)
unfolding close_in
close_in-All P i [] h = tt
close_in-All P i ((n0, senders) ∷ raw) (here, rest) =
    elim (Option-cases (Map.get ℕ_discrete i senders)) [
      | inl f ↦ rw (close_in, f) (here, close_in-All P i raw rest)
      | inr (c, f) ↦ rw (close_in, f) (remove-All ℕ_discrete (P n0) i senders here, rest)
    ]

module _ {PeerId : Type 0} where
  sent-All :
      (answer : ℕ → Sent) (m : Mediator PeerId) (e : Event PeerId) (senders : Map ℕ ℕ)
      → All (IsRegistration m (to_name e)) senders
      → All (IsMessage m) (sent answer e senders)
  unfolding sent
  sent-All answer m e [] h = tt
  sent-All answer m e ((i, c) ∷ senders) ((s, same), rest) =
      go (answer c) (sent-All answer m e senders rest)
    where
      go :
          (a : Sent)
          → All (IsMessage m) (sent answer e senders)
          → All (IsMessage m) (push answer e c a (sent answer e senders))
      go accepted next = (rw same s, next)
      go full next = next
      go disconnected next = next

  receive-All :
      (P : ℕ × Event PeerId → Type 0) (i : ℕ) (inbox : List (ℕ × Event PeerId))
      → All P inbox
      → All P (receive i inbox).1
  unfolding receive
  receive-All P i [] h = tt
  receive-All P i ((c, e) ∷ inbox) (here, rest) =
      elim (ℕ_discrete c i)
        as (λ d.
          All P
            (ite {C = Option (Event PeerId) × List (ℕ × Event PeerId)} d (some e, inbox)
              ((receive i inbox).0, (c, e) ∷ (receive i inbox).1)).1) [
                | yes same ↦ rest
                | no other ↦ (here, receive-All P i inbox rest)
              ]

  receive-found :
      (P : ℕ × Event PeerId → Type 0) (i : ℕ) (inbox : List (ℕ × Event PeerId)) (e : Event PeerId)
      → All P inbox
      → (receive i inbox).0 ≡ some e
      → P (i, e)
  unfolding receive
  receive-found P i [] e h f = absurd (ground arith)
  receive-found P i ((c, e') ∷ inbox) e (here, rest) f = elim (ℕ_discrete c i) [
    | yes same ↦ subst P (ground (arith, f, same)) here
    | no other ↦ receive-found P i inbox e rest (ground (arith, f, other))
  ]

  send_all-IsTyped :
      (answer : ℕ → Sent) (m : Mediator PeerId) (e : Event PeerId)
      → IsTyped m
      → IsTyped (send_all answer m e).0
  unfolding send_all
  send_all-IsTyped answer m e v = record {
    entries = v.entries;
    messages =
        All-append (IsMessage m) m.inbox
          (sent answer e (senders_of (Map.get text_discrete (to_name e) m.raw))) v.messages
          (sent-All answer m e (senders_of (Map.get text_discrete (to_name e) m.raw))
            (senders-All m (to_name e) v));
    fresh = v.fresh;
    unique = v.unique;
  }

  prune-IsTyped :
      (m : Mediator PeerId) (n : String) (ids : List ℕ) → IsTyped m → IsTyped (prune m n ids)
  unfolding prune
  prune-IsTyped m n ids v = elim (Option-cases (Map.get text_discrete n m.raw)) [
    | inl e ↦ rw e v
    | inr (senders, e) ↦ rw e (record {
      entries = insert-All text_discrete (IsEntry m) n (remove_all ids senders) m.raw v.entries (
          remove_all-All (IsRegistration m n) ids senders
            (get-All text_discrete (IsEntry m) n senders m.raw v.entries e));
      messages = v.messages;
      fresh = v.fresh;
      unique = insert-IsMap text_discrete n (remove_all ids senders) m.raw v.unique;
    })
  ]

  close-IsTyped : (m : Mediator PeerId) (i : ℕ) → IsTyped m → IsTyped (close m i)
  unfolding close
  close-IsTyped m i v = record {
    entries = close_in-All (IsRegistration m) i m.raw v.entries;
    messages = v.messages;
    fresh = v.fresh;
    unique = close_in-IsMap i m.raw v.unique;
  }

  poll_next-IsTyped :
      (m : Mediator PeerId) (i : ℕ) (k : Kind) → IsTyped m → IsTyped (poll_next m i k).0
  unfolding poll_next
  poll_next-IsTyped m i k v = record {
    entries = v.entries;
    messages = receive-All (IsMessage m) i m.inbox v.messages;
    fresh = v.fresh;
    unique = v.unique;
  }

  -- A source gets its argument, or nothing.
  poll_next-done :
      (m : Mediator PeerId) (i : ℕ) (k : Kind)
      → IsTyped m
      → Map.get ℕ_discrete i m.sources ≡ some k
      → (a : Option (Argument PeerId k)) × ((poll_next m i k).1 ≡ done a)
  unfolding poll_next
  poll_next-done m i k v s = go (receive i m.inbox).0 refl
    where
      go :
          (o : Option (Event PeerId))
          → (receive i m.inbox).0 ≡ o
          → (a : Option (Argument PeerId k)) × (argument k o ≡ done a)
      go none f = (none, refl)
      go (some e) f =
          let (k', s', same) = receive-found (IsMessage m) i m.inbox e v.messages f in
          let same_kind : k' ≡ k = cc (s, s') in
          let (a, r) = into-IsArgument_total k e (rw same_kind at same) in (some a, rw r refl)

-- What happens to the mediator. The two halves of `raise` are events of their own, since the lock is
-- free between them; a poll is one of an existing source.
pub data Happening (PeerId : Type 0) : Type 0 where
  bound : Kind → Happening PeerId
  raised : (ℕ → Sent) → Event PeerId → Happening PeerId
  pruned : String → List ℕ → Happening PeerId
  closed polled : ℕ → Happening PeerId

module _ {PeerId : Type 0} where
  abbrev pub poll_source : Mediator PeerId → ℕ → Option Kind → Mediator PeerId
  poll_source m i none = m
  poll_source m i (some k) = (poll_next m i k).0

  unfoldable pub step : Mediator PeerId → Happening PeerId → Mediator PeerId
  step m (bound k) = bind_with m k
  step m (raised answer e) = (send_all answer m e).0
  step m (pruned n ids) = prune m n ids
  step m (closed i) = close m i
  step m (polled i) = poll_source m i (Map.get ℕ_discrete i m.sources)

  unfoldable pub run : Mediator PeerId → List (Happening PeerId) → Mediator PeerId
  unfolding step
  run m [] = m
  run m (h ∷ hs) = run (step m h) hs

  step-IsTyped : (m : Mediator PeerId) (h : Happening PeerId) → IsTyped m → IsTyped (step m h)
  unfolding step
  step-IsTyped m (bound k) v = bind_with-IsTyped m k v
  step-IsTyped m (raised answer e) v = send_all-IsTyped answer m e v
  step-IsTyped m (pruned n ids) v = prune-IsTyped m n ids v
  step-IsTyped m (closed i) v = close-IsTyped m i v
  step-IsTyped m (polled i) v = elim (Option-cases (Map.get ℕ_discrete i m.sources)) [
    | inl e ↦ rw e v
    | inr (k, e) ↦ rw e (poll_next-IsTyped m i k v)
  ]

  pub run-IsTyped :
      (m : Mediator PeerId) (hs : List (Happening PeerId)) → IsTyped m → IsTyped (run m hs)
  unfolding run
  run-IsTyped m [] v = v
  run-IsTyped m (h ∷ hs) v = run-IsTyped (step m h) hs (step-IsTyped m h v)

  -- Whatever sources are made, closed and polled, and whatever events are raised, in whatever order
  -- and with whatever channels full or gone: a poll of a source finds an event of the type that the
  -- source was made for, or nothing, and does not reach the panic for another type.
  pub run-poll_next :
      (hs : List (Happening PeerId)) (i : ℕ) (k : Kind)
      → Map.get ℕ_discrete i (run start hs).sources ≡ some k
      → (a : Option (Argument PeerId k)) × ((poll_next (run start hs) i k).1 ≡ done a)
  run-poll_next hs i k s = poll_next-done (run start hs) i k (run-IsTyped start hs start-IsTyped) s
