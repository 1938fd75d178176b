-- ===== src/Event/Typed.antt =====
-- The messages of a channel are those of the kind that its source was made for.

use Prim.Native.String.{String}
use text.Mathlib.Text.{◌==◌}
use xstack.Base.{
  ℕ, arith, ◌<◌, ◌≡◌, refl, subst, sym, ◌∙◌, Option, none, some, ℕ_discrete, All, All-map,
  if◌then◌else◌, ap,
}
use xstack.Base.Map
use xstack.Base.Map.{
  Map, IsMap, get-All, insert-All, remove-All, get-insert, get-insert_self, insert-IsMap,
}
use xstack.Base.Outcome.{done}
use xstack.Base.Text.{text_discrete}
use xstack.Event.{
  Event, Kind, connected_kind, success_kind, failed_kind, network_kind, connected,
  handshake_success, handshake_failed, network, name, to_name, Argument, into_argument,
}
use xstack.Event.Mediator.{Mediator, with_sender, bind, bind_with, senders_of, start}

decode : String → Option Kind
decode s =
    if s == "/xstack/connected"
    then some connected_kind
    else if s == "/xstack/handshake_success"
    then some success_kind
    else if s == "/xstack/handshake_failed"
    then some failed_kind
    else some network_kind

decode-name : (k : Kind) → decode (name k) ≡ some k
unfolding decode
decode-name connected_kind = refl
decode-name success_kind = refl
decode-name failed_kind = refl
decode-name network_kind = refl

name_inj : (k k' : Kind) → name k ≡ name k' → k ≡ k'
name_inj k k' h = cc (decode-name k, decode-name k', ap decode h)

with_sender-All :
    (P : ℕ × ℕ → Type 0) (o : Option (Map ℕ ℕ)) (i : ℕ)
    → All P (senders_of o)
    → P (i, i)
    → All P (with_sender o i)
with_sender-All P none i h p = (p, tt)
with_sender-All P (some senders) i h p = insert-All ℕ_discrete P i i senders h p

module _ {PeerId : Type 0} where
  kind_of : Event PeerId → Kind
  kind_of (connected c p) = connected_kind
  kind_of (handshake_success c p) = success_kind
  kind_of (handshake_failed c p) = failed_kind
  kind_of (network n) = network_kind

  name-kind_of : (e : Event PeerId) → name (kind_of e) ≡ to_name e
  unfolding kind_of
  name-kind_of (connected c p) = refl
  name-kind_of (handshake_success c p) = refl
  name-kind_of (handshake_failed c p) = refl
  name-kind_of (network n) = refl

  abbrev pub IsArgument : Kind → Event PeerId → Type 0
  IsArgument k e = (a : Argument PeerId k) × (into_argument PeerId k e ≡ done a)

  into_own_kind : (e : Event PeerId) → IsArgument (kind_of e) e
  unfolding kind_of into_argument
  into_own_kind (connected c p) = ((c, p), refl)
  into_own_kind (handshake_success c p) = ((c, p), refl)
  into_own_kind (handshake_failed c p) = ((c, p), refl)
  into_own_kind (network n) = (n, refl)

  pub into-IsArgument_total : (k : Kind) (e : Event PeerId) → name k ≡ to_name e → IsArgument k e
  into-IsArgument_total k e h =
      subst (λ k'. IsArgument k' e) (name_inj (kind_of e) k (name-kind_of e ∙ sym h))
        (into_own_kind e)

  -- A source that was made for an event name.
  abbrev pub IsSource : Mediator PeerId → ℕ → String → Type 0
  IsSource m i n = (k : Kind) × (Map.get ℕ_discrete i m.sources ≡ some k) × (name k ≡ n)

  -- A registered source is one for the event, on its own channel.
  abbrev pub IsRegistration : Mediator PeerId → String → ℕ × ℕ → Type 0
  IsRegistration m n (i, c) = IsSource m i n × (c ≡ i)

  abbrev pub IsEntry : Mediator PeerId → String × Map ℕ ℕ → Type 0
  IsEntry m (n, senders) = All (IsRegistration m n) senders

  abbrev pub IsMessage : Mediator PeerId → ℕ × Event PeerId → Type 0
  IsMessage m (c, e) = IsSource m c (to_name e)

  pub record IsTyped (m : Mediator PeerId) : Type 0 where
    pub entries : All (IsEntry m) m.raw
    pub messages : All (IsMessage m) m.inbox
    pub fresh : (i : ℕ) (k : Kind) → Map.get ℕ_discrete i m.sources ≡ some k → i < m.next_id
    pub unique : IsMap text_discrete m.raw

  pub start-IsTyped : IsTyped start
  unfolding Map.get
  start-IsTyped = record {
    entries = tt;
    messages = tt;
    fresh = λ i k e. absurd (ground arith);
    unique = tt;
  }

  pub senders-All :
      (m : Mediator PeerId) (n : String)
      → IsTyped m
      → All (IsRegistration m n) (senders_of (Map.get text_discrete n m.raw))
  senders-All m n v = go (Map.get text_discrete n m.raw) refl
    where
      go :
          (o : Option (Map ℕ ℕ))
          → Map.get text_discrete n m.raw ≡ o
          → All (IsRegistration m n) (senders_of o)
      go none e = tt
      go (some senders) e = get-All text_discrete (IsEntry m) n senders m.raw v.entries e

  -- A new source leaves the others what they were.
  IsSource-bind_with :
      (m : Mediator PeerId) (k : Kind) (i : ℕ) (n : String)
      → IsTyped m
      → IsSource m i n
      → IsSource (bind_with m k) i n
  unfolding bind_with
  IsSource-bind_with m k i n v (k', e, same) =
      (k', ground (arith, e, v.fresh i k' e, get-insert ℕ_discrete m.next_id i k m.sources), same)

  pub bind_with-IsTyped : (m : Mediator PeerId) (k : Kind) → IsTyped m → IsTyped (bind_with m k)
  unfolding bind_with bind
  bind_with-IsTyped m k v =
      let m' = bind_with m k in
      let kept : (n : String) (x : ℕ × ℕ) → IsRegistration m n x → IsRegistration m' n x =
        λ n x r. (IsSource-bind_with m k x.0 n v r.0, r.1) in
      record {
        entries =
            insert-All text_discrete (IsEntry m') (name k)
              (with_sender (Map.get text_discrete (name k) m.raw) m.next_id) m.raw
              (All-map (IsEntry m) (IsEntry m')
                (λ x. All-map (IsRegistration m x.0) (IsRegistration m' x.0) (kept x.0) x.1) m.raw
                v.entries)
              (with_sender-All (IsRegistration m' (name k)) (Map.get text_discrete (name k) m.raw)
                m.next_id
                (All-map (IsRegistration m (name k)) (IsRegistration m' (name k)) (kept (name k))
                  (senders_of (Map.get text_discrete (name k) m.raw)) (senders-All m (name k) v))
                ((k, get-insert_self ℕ_discrete m.next_id k m.sources, refl), refl));
        messages =
            All-map (IsMessage m) (IsMessage m') (λ x. IsSource-bind_with m k x.0 (to_name x.1) v)
              m.inbox v.messages;
        fresh = λ i k' e.
            ground (arith, e, v.fresh i k', get-insert ℕ_discrete m.next_id i k m.sources);
        unique =
            insert-IsMap text_discrete (name k)
              (with_sender (Map.get text_discrete (name k) m.raw) m.next_id) m.raw v.unique;
      }
