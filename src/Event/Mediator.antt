-- ===== src/Event/Mediator.antt =====
-- `SyncEventMediator` and `EventSource` of crates/xstack/src/event.rs. A channel has the number of the
-- `XStackId` that its source was made with; whether it takes a message is a parameter.
use Prim.Native.String.{String}
use xstack.Base.{ℕ, ◌+◌, List, [], ◌∷◌, ◌++◌, Option, none, some, ite, ℕ_discrete}
use xstack.Base.Map
use xstack.Base.Map.{Map}
use xstack.Base.Text.{text_discrete}
use xstack.Base.Outcome.{Outcome, done, ◌>>=◌}
use xstack.Event.{Event, Kind, name, to_name, Sent, accepted, disconnected, Argument, into_argument}

-- For each event name, the channels by the identifiers of their sources.
abbrev pub Senders : Type 0
Senders = Map String (Map ℕ ℕ)

abbrev pub with_sender : Option (Map ℕ ℕ) → ℕ → Map ℕ ℕ
with_sender none i = (i, i) ∷ []
with_sender (some senders) i = Map.insert ℕ_discrete i i senders

-- `SyncEventMediator::bind`, on the channel that it makes for the identifier.
unfoldable pub bind : Senders → ℕ → String → Senders
bind raw i event_name =
    Map.insert text_discrete event_name (with_sender (Map.get text_discrete event_name raw) i) raw

abbrev pub senders_of : Option (Map ℕ ℕ) → Map ℕ ℕ
senders_of none = []
senders_of (some senders) = senders

unfoldable pub remove_all : List ℕ → Map ℕ ℕ → Map ℕ ℕ
remove_all [] senders = senders
remove_all (i ∷ ids) senders = remove_all ids (Map.remove ℕ_discrete i senders)

abbrev pub write : Senders → String → Option (Map ℕ ℕ) → Senders
write raw event_name none = raw
write raw event_name (some senders) = Map.insert text_discrete event_name senders raw

abbrev pub without : List ℕ → Option (Map ℕ ℕ) → Option (Map ℕ ℕ)
without ids none = none
without ids (some senders) = some (remove_all ids senders)

-- The loop of `close`, which ends at the first removal.
unfoldable pub close_in : ℕ → Senders → Senders
close_in i [] = []
close_in i ((n, senders) ∷ raw) = elim (Map.get ℕ_discrete i senders) [
  | none ↦ (n, senders) ∷ close_in i raw
  | some c ↦ (n, Map.remove ℕ_discrete i senders) ∷ raw
]

module _ (PeerId : Type 0) where
  -- The mediator; the next `XStackId`; the event sources in use, by identifier; and what their
  -- channels hold, oldest first.
  pub record Mediator : Type 0 where
    pub raw : Senders
    pub next_id : ℕ
    pub sources : Map ℕ Kind
    pub inbox : List (ℕ × Event PeerId)

module _ {PeerId : Type 0} where
  abbrev pub start : Mediator PeerId
  start = record { raw = []; next_id = 0; sources = []; inbox = [] }

  -- `EventSource::bind_with`.
  unfoldable pub bind_with : Mediator PeerId → Kind → Mediator PeerId
  unfolding bind
  bind_with m k = record {
    raw = bind m.raw m.next_id (name k);
    next_id = m.next_id + 1;
    sources = Map.insert ℕ_discrete m.next_id k m.sources;
    inbox = m.inbox;
  }

  -- The loop of `raise`: what the channels accept, and the identifiers of those that are gone.
  module _ (answer : ℕ → Sent) (e : Event PeerId) where
    abbrev pub push : ℕ → Sent → List (ℕ × Event PeerId) → List (ℕ × Event PeerId)
    push c accepted rest = (c, e) ∷ rest
    push c _ rest = rest

    unfoldable pub sent : Map ℕ ℕ → List (ℕ × Event PeerId)
    sent [] = []
    sent ((i, c) ∷ senders) = let rest = sent senders in push c (answer c) rest

    abbrev pub note : ℕ → Sent → List ℕ → List ℕ
    note i disconnected rest = i ∷ rest
    note i _ rest = rest

    unfoldable pub gone : Map ℕ ℕ → List ℕ
    gone [] = []
    gone ((i, c) ∷ senders) = let rest = gone senders in note i (answer c) rest

  -- The first half of `raise`, on a copy of the senders, and the identifiers to remove.
  unfoldable pub send_all : (ℕ → Sent) → Mediator PeerId → Event PeerId → Mediator PeerId × List ℕ
  unfolding sent gone
  send_all answer m e =
      let senders = senders_of (Map.get text_discrete (to_name e) m.raw) in
      (record m { inbox = m.inbox ++ sent answer e senders }, gone answer e senders)

  -- The second half of `raise`.
  unfoldable pub prune : Mediator PeerId → String → List ℕ → Mediator PeerId
  unfolding remove_all
  prune m event_name ids = record m {
    raw = write m.raw event_name (without ids (Map.get text_discrete event_name m.raw));
  }

  -- `SyncEventMediator::raise`.
  unfoldable pub raise : (ℕ → Sent) → Mediator PeerId → Event PeerId → Mediator PeerId
  unfolding send_all prune
  raise answer m e = let (m', ids) = send_all answer m e in prune m' (to_name e) ids

  unfoldable pub close : Mediator PeerId → ℕ → Mediator PeerId
  unfolding close_in
  close m i = record m { raw = close_in i m.raw }

  -- The oldest message of a channel, and the others.
  unfoldable pub receive :
      ℕ → List (ℕ × Event PeerId) → Option (Event PeerId) × List (ℕ × Event PeerId)
  receive i [] = (none, [])
  receive i ((c, e) ∷ inbox) =
      let (found, rest) = receive i inbox in
      ite (ℕ_discrete c i) (some e, inbox) (found, (c, e) ∷ rest)

  abbrev pub argument : (k : Kind) → Option (Event PeerId) → Outcome (Option (Argument PeerId k))
  argument k none = done none
  argument k (some e) = into_argument PeerId k e >>= λ a. done (some a)

  -- `EventSource::poll_next` of a source of a kind.
  unfoldable pub poll_next :
      Mediator PeerId → ℕ → (k : Kind) → Mediator PeerId × Outcome (Option (Argument PeerId k))
  unfolding receive into_argument
  poll_next m i k =
      let (found, rest) = receive i m.inbox in (record m { inbox = rest }, argument k found)
