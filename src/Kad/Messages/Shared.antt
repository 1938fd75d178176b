-- ===== src/Kad/Messages/Shared.antt =====
-- What one node tells another of the peers that it knows.
use xstack.Base.{ℕ, ◌≤◌, ◌≡◌, refl, ap, List, [], ◌∷◌, ◌++◌, map, length, All, false}
use xstack.Base.Result.{ok, collect}
use xstack.Rpc.{Io}
use xstack.Rpc.Framing.{frame}
use xstack.Rpc.Call.{xstack_call_lem}
use xstack.Switch.State.{Net, Addr, library}
use xstack.Kad.Messages.{
  KadMessage, message_of, find_node, get_value, get_providers, Codec, PeerInfo, kad, to_peer,
  addresses, known_at, from_peer, found_peer, record_value, kad_find_node, kad_get_value,
  kad_get_providers,
}

module _ (N : Net) (C : Codec N) where
  -- What is left of what is known of a peer.
  abbrev pub shorn : PeerInfo N → PeerInfo N
  shorn info = known_at N C info.id info.addrs

  -- A peer whose identifier and addresses are what their bytes are parsed to.
  abbrev pub IsParsed : PeerInfo N → Type 0
  IsParsed info =
      (C.from_bytes (C.to_bytes info.id) ≡ ok info.id)
      × All (λ addr. N.try_from (N.to_vec addr) ≡ ok addr) info.addrs

  addresses-to_vec :
      (addrs : List (Addr N))
      → All (λ addr. N.try_from (N.to_vec addr) ≡ ok addr) addrs
      → addresses N C (map N.to_vec addrs) ≡ ok addrs
  unfolding collect
  addresses-to_vec [] all = refl
  addresses-to_vec (addr ∷ addrs) (e, all) = rw (e, addresses-to_vec addrs all) refl

  from_peer-to_peer :
      (info : PeerInfo N) → IsParsed info → from_peer N C (to_peer N C info) ≡ ok (shorn info)
  unfolding from_peer to_peer
  from_peer-to_peer info (e, all) = rw (e, addresses-to_vec info.addrs all) refl

  found_peer-to_peer :
      (info : PeerInfo N) → IsParsed info → found_peer N C (to_peer N C info) ≡ ok (shorn info)
  unfolding found_peer to_peer
  found_peer-to_peer info (e, all) = rw (e, addresses-to_vec info.addrs all) refl

  collect-from_peer :
      (infos : List (PeerInfo N))
      → All IsParsed infos
      → collect (from_peer N C) (map (to_peer N C) infos) ≡ ok (map shorn infos)
  unfolding collect
  collect-from_peer [] all = refl
  collect-from_peer (info ∷ infos) (e, all) =
      rw (from_peer-to_peer info e, collect-from_peer infos all) refl

  collect-found_peer :
      (infos : List (PeerInfo N))
      → All IsParsed infos
      → collect (found_peer N C) (map (to_peer N C) infos) ≡ ok (map shorn infos)
  unfolding collect
  collect-found_peer [] all = refl
  collect-found_peer (info ∷ infos) (e, all) =
      rw (found_peer-to_peer info e, collect-found_peer infos all) refl

  -- A node that answers each of the three questions for peers with peers that it knows, on an open
  -- stream: the caller learns their identifiers and addresses, in order, and the value that is stored,
  -- but neither their protocols nor when they appeared. The messages fit the limit, and they, the
  -- identifiers and the addresses are what their bytes are parsed to.
  pub questions-to_peer :
      (io : Io) (key : List ℕ) (max : ℕ) (answer : KadMessage)
      (closer providers : List (PeerInfo N)) (find value provide back rest : List ℕ)
      → answer.closer_peers ≡ map (to_peer N C) closer
      → answer.provider_peers ≡ map (to_peer N C) providers
      → All IsParsed closer
      → All IsParsed providers
      → C.write (message_of find_node key) ≡ ok find
      → C.write (message_of get_value key) ≡ ok value
      → C.write (message_of get_providers key) ≡ ok provide
      → C.parse back ≡ ok answer
      → length back ≤ max
      → io.is_closed ≡ false
      → io.input ≡ frame (library N) back ++ rest
      → (kad_find_node N C key max io ≡ (
        ok (map shorn closer),
        record io { input = rest; output = io.output ++ frame (library N) find },
      ))
        × (kad_get_value N C key max io ≡ (
          ok (record {
            closer_peers = map shorn closer;
            value = record_value N C answer.store_record;
          }),
          record io { input = rest; output = io.output ++ frame (library N) value },
        ))
        × (kad_get_providers N C key max io ≡ (
          ok (record { closer_peers = map shorn closer; provider_peers = map shorn providers }),
          record io { input = rest; output = io.output ++ frame (library N) provide },
        ))
  unfolding kad_find_node kad_get_value kad_get_providers
  questions-to_peer io key max answer closer providers find value provide back rest ec ep ac ap wf
        wv wp parsed fits open_stream e =
      let call = xstack_call_lem (library N) (kad N C) io in
      (
        rw
            (
              call (message_of find_node key) answer find back rest max wf parsed fits open_stream
                  e,
              ec,
              collect-found_peer closer ac,
            )
            refl,
        rw
            (
              call (message_of get_value key) answer value back rest max wv parsed fits open_stream
                  e,
              ec,
              collect-from_peer closer ac,
            )
            refl,
        rw
            (
              call (message_of get_providers key) answer provide back rest max wp parsed fits
                  open_stream e,
              ec,
              ep,
              collect-from_peer closer ac,
              collect-from_peer providers ap,
            )
            refl,
      )
