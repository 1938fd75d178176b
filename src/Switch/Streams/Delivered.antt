-- ===== src/Switch/Streams/Delivered.antt =====
-- Where an incoming stream goes.
use Prim.Native.String.{String}
use xstack.Base.{
  ℕ, ◌≡◌, refl, sym, ap, ◌∙◌, arith, List, [], ◌∷◌, ◌++◌, Option, none, some, Bool, true, false,
  if_pos, eqb, contains, ℕ_discrete, ◌⊎◌, inl, inr, Option-cases,
}
use xstack.Base.Map
use xstack.Base.Map.{Map}
use xstack.Base.Text.{text_discrete}
use xstack.Base.Outcome.{done}
use xstack.Base.Result.{Result, ok}
use xstack.Dispatcher as Dispatchers
use xstack.Dispatcher.Guarantee.{IsGuaranteed, listener}
use xstack.Dispatcher.Order.{waiting_for, routed, dispatch-accept}
use xstack.Switch.State.{Net, Switch, Failure, stream_names}
use xstack.Switch.Identity.{keys, protocol_ipfs_id, protocol_ipfs_push_id, protocol_ipfs_ping}
use xstack.Switch.Streams.{ProtocolStream, offered, dispatch_stream, handle_incoming_stream}

-- Whether a protocol is one of the three that the switch serves itself.
abbrev pub is_own : String → Bool
is_own p =
    contains text_discrete (protocol_ipfs_id ∷ protocol_ipfs_push_id ∷ protocol_ipfs_ping ∷ []) p

contains-append_left :
    (xs ys : List String) (p : String)
    → contains text_discrete ys p ≡ false
    → contains text_discrete (xs ++ ys) p ≡ contains text_discrete xs p
contains-append_left [] ys p e = e
contains-append_left (x ∷ xs) ys p e = rw (contains-append_left xs ys p e) refl

get-keys :
    {V : Type 0} (m : Map String V) (p : String)
    → contains text_discrete (keys m) p ≡ true
    → (v : V) × (Map.get text_discrete p m ≡ some v)
unfolding keys Map.get
get-keys [] p e = absurd (ground (arith, e))
get-keys ((q, v) ∷ m) p e = elim (text_discrete q p) [
  | yes same ↦ (v, if_pos (text_discrete q p) same (some v) (Map.get text_discrete p m))
  | no other ↦ let (w, f) = get-keys m p (ground (arith, e, other)) in (w, ground (arith, f, other))
]

foreign_tests :
    (p : String)
    → is_own p ≡ false
    → (eqb text_discrete p protocol_ipfs_id ≡ false)
      × (eqb text_discrete p protocol_ipfs_push_id ≡ false)
      × (eqb text_discrete p protocol_ipfs_ping ≡ false)
foreign_tests p e = (ground (arith, e), ground (arith, e), ground (arith, e))

module _ (N : Net) where
  dispatched :
      (s : Switch N) (now : N.Time) (pings : ℕ) (p : String) (x : ProtocolStream N)
      (d : Dispatchers.Dispatcher (stream_names N))
      → is_own p ≡ false
      → Dispatchers.dispatch (stream_names N) s.stream_dispatcher (x.stream, p) ≡ done d
      → dispatch_stream N now pings p x s ≡ done (ok tt, record s { stream_dispatcher = d })
  unfolding dispatch_stream
  dispatched s now pings p x d foreign e =
      let (first, second, third) = foreign_tests p foreign in
      rw (dispatch_stream, first, second, third, e) refl

  routed_free :
      (s : Dispatchers.Dispatcher (stream_names N)) (x : Dispatchers.Inbound (stream_names N))
      (i : ℕ)
      → Map.get text_discrete (N.conn_id x.0) s.unauth_streams ≡ none
      → listener (stream_names N) s x.1 ≡ some i
      → routed (stream_names N) s i x ≡ x ∷ []
  routed_free s x i e f = rw (e, f) (if_pos (ℕ_discrete i i) refl (x ∷ []) [])

  dispatch-unbound :
      (s : Dispatchers.Dispatcher (stream_names N)) (x : Dispatchers.Inbound (stream_names N))
      → Map.get text_discrete (N.conn_id x.0) s.unauth_streams ≡ none
      → listener (stream_names N) s x.1 ≡ none
      → Dispatchers.dispatch (stream_names N) s x ≡ done s
  unfolding Dispatchers.dispatch
  dispatch-unbound s x over unbound = rw (over, unbound) refl

  -- Where a stream has gone: to the listener that its protocol is bound to, at the end of those that
  -- wait for it, or nowhere, if there is none.
  abbrev pub Gone :
      Dispatchers.Dispatcher (stream_names N)
      → Dispatchers.Dispatcher (stream_names N)
      → Dispatchers.Inbound (stream_names N)
      → Type 0
  Gone before after x =
      ((i : ℕ) × (listener (stream_names N) before x.1 ≡ some i)
        × (waiting_for (stream_names N) after i ≡ waiting_for (stream_names N) before i ++ x ∷ []))
      ⊎ ((listener (stream_names N) before x.1 ≡ none) × (after ≡ before))

  dispatch-Gone :
      (s : Dispatchers.Dispatcher (stream_names N)) (x : Dispatchers.Inbound (stream_names N))
      → IsGuaranteed (stream_names N) s
      → Map.get text_discrete (N.conn_id x.0) s.unauth_streams ≡ none
      → (d : Dispatchers.Dispatcher (stream_names N)) × (Dispatchers.dispatch (stream_names N) s x
          ≡ done d)
        × Gone s d x
  dispatch-Gone s x v over = elim (Option-cases (listener (stream_names N) s x.1)) [
    | inl unbound ↦ (s, dispatch-unbound s x over unbound, inr (unbound, refl))
    | inr (i, f) ↦
        let (d, e, w, rest) = dispatch-accept (stream_names N) s x i v in
        (
          d,
          e,
          inl (
            i,
            f,
            w ∙ ap (λ l. waiting_for (stream_names N) s i ++ l) (routed_free s x i over f),
          ),
        )
  ]

  -- A protocol that the peer picks for an incoming stream among those that it is offered, and that is
  -- none of the three which the switch serves itself, is bound to a listener when it is offered. Other
  -- tasks may change the switch until it is picked. If the dispatcher then keeps its guarantee, and the
  -- handshake of the connection is over, nothing panics and nothing but the dispatcher changes: if the
  -- protocol is then bound to a listener, the stream is the last of those that wait for it; if the
  -- listener was closed meanwhile and no other is bound to the protocol, the stream is dropped.
  pub handle_incoming_stream-Gone :
      (s : Switch N) (select : List String → Option (Result String (Failure N)))
      (meanwhile : Switch N → Switch N) (now : N.Time) (pings : ℕ) (p : String)
      (x : ProtocolStream N)
      → IsGuaranteed (stream_names N) (meanwhile s).stream_dispatcher
      → select (offered N s) ≡ some (ok p)
      → contains text_discrete (offered N s) p ≡ true
      → is_own p ≡ false
      → Map.get text_discrete (N.conn_id x.stream) (meanwhile s).stream_dispatcher.unauth_streams
        ≡ none
      → ((i : ℕ) × (listener (stream_names N) s.stream_dispatcher p ≡ some i))
        × (d : Dispatchers.Dispatcher (stream_names N)) × (handle_incoming_stream N select meanwhile
              now pings x s
            ≡ done (ok tt, record (meanwhile s) { stream_dispatcher = d }))
        × Gone (meanwhile s).stream_dispatcher d (x.stream, p)
  unfolding handle_incoming_stream
  handle_incoming_stream-Gone s select meanwhile now pings p x v picked offer foreign over =
      let own = protocol_ipfs_id ∷ protocol_ipfs_push_id ∷ protocol_ipfs_ping ∷ [] in
      let (d, e, gone) = dispatch-Gone (meanwhile s).stream_dispatcher (x.stream, p) v over in
      (
        get-keys s.stream_dispatcher.protos p
            (sym (contains-append_left (keys s.stream_dispatcher.protos) own p foreign) ∙ offer),
        d,
        rw (picked, dispatched (meanwhile s) now pings p x d foreign e) refl,
        gone,
      )
