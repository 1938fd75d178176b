-- ===== src/Dns.antt =====
-- `DnsAddr` of crates/dnsaddr/src/lib.rs: names in an address are resolved, round by round, and the
-- addresses are tried in turn.
pub mod Rounds
pub mod Names
pub mod Connect
use xstack.Base.{
  ℕ, zero, suc, ◌==◌, ◌≡◌, List, [], ◌∷◌, ◌++◌, map, Option, none, some, Bool, true, false,
  if◌then◌else◌,
}
use xstack.Base.Result.{Result, ok, err, ◌>>=◌}
use xstack.Base.Outcome.{Outcome, done, panic}
use xstack.Multiaddr.{
  Protocol, ip4, ip6, tcp, udp, dns, dns4, dns6, dnsaddr, p2p, p2p_circuit, quic_v1, other_protocol,
  Multiaddr, IpAddr, v4, v6, is_dnsaddr_transport,
}

-- What the name servers answer in one round, what a text is parsed to as an address, and whether
-- the resolution of an address takes too long.
pub record Resolver (Ip PeerId Other E : Type 0) : Type 0 where
  pub lookup_ip : List ℕ → Result (List (IpAddr Ip)) E
  pub lookup_txt : List ℕ → Result (List (List ℕ)) E
  pub parse : List ℕ → Result (Multiaddr Ip PeerId Other) E
  pub is_late : Multiaddr Ip PeerId Other → Bool
  pub timeout : E

-- The text without a prefix that it starts with.
unfoldable pub strip_prefix : List ℕ → List ℕ → Option (List ℕ)
strip_prefix [] text = some text
strip_prefix (c ∷ prefix) [] = none
strip_prefix (c ∷ prefix) (d ∷ text) =
    let rest = strip_prefix prefix text in if c == d then rest else none

-- `dnsaddr=` and `_dnsaddr.`
abbrev pub dnsaddr_prefix : List ℕ
dnsaddr_prefix = 100 ∷ 110 ∷ 115 ∷ 97 ∷ 100 ∷ 100 ∷ 114 ∷ 61 ∷ []

abbrev pub dnsaddr_host : List ℕ
dnsaddr_host = 95 ∷ 100 ∷ 110 ∷ 115 ∷ 97 ∷ 100 ∷ 100 ∷ 114 ∷ 46 ∷ []

module _ {Ip PeerId Other : Type 0} where
  abbrev pub to_protocol : IpAddr Ip → Protocol Ip PeerId Other
  to_protocol (v4 ip) = ip4 ip
  to_protocol (v6 ip) = ip6 ip

  abbrev pub push : Protocol Ip PeerId Other → Multiaddr Ip PeerId Other → Multiaddr Ip PeerId Other
  push proto stack = stack ++ proto ∷ []

  -- The loop over the addresses of a name: each of the stacks is continued by each of them.
  unfoldable pub spread :
      List (Multiaddr Ip PeerId Other) → List (IpAddr Ip) → List (Multiaddr Ip PeerId Other)
  spread stacks [] = []
  spread [] (ip ∷ ips) = (to_protocol ip ∷ []) ∷ spread [] ips
  spread (stack ∷ stacks) (ip ∷ ips) =
      map (push (to_protocol ip)) (stack ∷ stacks) ++ spread (stack ∷ stacks) ips

  -- What a round has found, sorted into what is to be resolved again and what is not.
  unfoldable pub sort_out :
      List (Multiaddr Ip PeerId Other)
      → List (Multiaddr Ip PeerId Other)
      → List (Multiaddr Ip PeerId Other)
      → List (Multiaddr Ip PeerId Other) × List (Multiaddr Ip PeerId Other)
  unfolding is_dnsaddr_transport
  sort_out dnsaddrs parsed [] = (dnsaddrs, parsed)
  sort_out dnsaddrs parsed (addr ∷ cached) = elim (is_dnsaddr_transport addr) [
    | true ↦ sort_out (dnsaddrs ++ addr ∷ []) parsed cached
    | false ↦ sort_out dnsaddrs (parsed ++ addr ∷ []) cached
  ]

module _ {Ip PeerId Other E : Type 0} where
  -- The loop over the texts of a `dnsaddr` name.
  unfoldable pub read_texts :
      (List ℕ → Result (Multiaddr Ip PeerId Other) E)
      → List (Multiaddr Ip PeerId Other)
      → List (List ℕ)
      → Result (List (Multiaddr Ip PeerId Other)) E
  unfolding strip_prefix
  read_texts parse stacks [] = ok stacks
  read_texts parse stacks (text ∷ texts) = elim (strip_prefix dnsaddr_prefix text) [
    | none ↦ read_texts parse stacks texts
    | some rest ↦ parse rest >>= λ addr. read_texts parse (stacks ++ addr ∷ []) texts
  ]

  module _ (R : Resolver Ip PeerId Other E) where
    open R use {lookup_ip, lookup_txt, parse, is_late, timeout}

    -- The loop over the protocols of an address, with the stacks so far.
    unfoldable pub resolve :
        List (Multiaddr Ip PeerId Other)
        → Multiaddr Ip PeerId Other
        → Result (List (Multiaddr Ip PeerId Other)) E
    unfolding spread read_texts
    resolve stacks [] = ok stacks
    resolve stacks (dns name ∷ rest) = lookup_ip name >>= λ ips. resolve (spread stacks ips) rest
    resolve stacks (dns4 name ∷ rest) = lookup_ip name >>= λ ips. resolve (spread stacks ips) rest
    resolve stacks (dns6 name ∷ rest) = lookup_ip name >>= λ ips. resolve (spread stacks ips) rest
    resolve stacks (dnsaddr name ∷ rest) =
        lookup_txt (dnsaddr_host ++ name) >>= λ texts. read_texts parse stacks texts
    resolve stacks (proto ∷ rest) = resolve (map (push proto) stacks) rest

    unfoldable pub dns_lookup :
        Multiaddr Ip PeerId Other → Result (List (Multiaddr Ip PeerId Other)) E
    unfolding resolve
    dns_lookup addr = resolve [] addr

    unfoldable pub lookup_in_time :
        Multiaddr Ip PeerId Other → Result (List (Multiaddr Ip PeerId Other)) E
    unfolding dns_lookup
    lookup_in_time addr = if is_late addr then err timeout else dns_lookup addr

    -- The loop over the addresses of a round.
    unfoldable pub gather :
        List (Multiaddr Ip PeerId Other)
        → List (Multiaddr Ip PeerId Other)
        → Result (List (Multiaddr Ip PeerId Other)) E
    unfolding lookup_in_time
    gather cached [] = ok cached
    gather cached (addr ∷ addrs) = lookup_in_time addr >>= λ raddrs. gather (cached ++ raddrs) addrs

  -- The loop of `lookup`, by the rounds that are left until `depth > self.1`; the servers may answer
  -- each round in another way.
  unfoldable pub lookup_loop :
      (ℕ → Resolver Ip PeerId Other E)
      → ℕ
      → List (Multiaddr Ip PeerId Other)
      → List (Multiaddr Ip PeerId Other)
      → Result (List (Multiaddr Ip PeerId Other)) E
  unfolding gather sort_out
  lookup_loop R rounds [] parsed = ok parsed
  lookup_loop R zero (addr ∷ dnsaddrs) parsed = ok parsed
  lookup_loop R (suc rounds) (addr ∷ dnsaddrs) parsed =
      gather (R rounds) [] (addr ∷ dnsaddrs) >>= λ cached.
      lookup_loop R rounds (sort_out [] parsed cached).0 (sort_out [] parsed cached).1

  -- `lookup`, with the limit that the field `1` holds.
  unfoldable pub lookup :
      (ℕ → Resolver Ip PeerId Other E)
      → ℕ
      → Multiaddr Ip PeerId Other
      → Result (List (Multiaddr Ip PeerId Other)) E
  unfolding lookup_loop
  lookup R limit raddr = lookup_loop R (suc limit) (raddr ∷ []) []

  -- The loop of `connect` over the addresses, and what follows it: `last_error.unwrap()`.
  unfoldable pub try_each :
      {Conn : Type 0}
      → (Multiaddr Ip PeerId Other → Result Conn E)
      → Option E
      → List (Multiaddr Ip PeerId Other)
      → Outcome (Result Conn E)
  try_each transport_connect none [] = panic
  try_each transport_connect (some error) [] = done (err error)
  try_each transport_connect last_error (raddr ∷ raddrs) = elim (transport_connect raddr) [
    | ok conn ↦ done (ok conn)
    | err error ↦ try_each transport_connect (some error) raddrs
  ]

  -- The order in which they are tried is that of `shuffle`.
  unfoldable pub try_resolved :
      {Conn : Type 0}
      → (List (Multiaddr Ip PeerId Other) → List (Multiaddr Ip PeerId Other))
      → (Multiaddr Ip PeerId Other → Result Conn E)
      → E
      → List (Multiaddr Ip PeerId Other)
      → Outcome (Result Conn E)
  unfolding try_each
  try_resolved shuffle transport_connect unresolved [] = done (err unresolved)
  try_resolved shuffle transport_connect unresolved (raddr ∷ raddrs) =
      try_each transport_connect none (shuffle (raddr ∷ raddrs))

  unfoldable pub connect :
      {Conn : Type 0}
      → (ℕ → Resolver Ip PeerId Other E)
      → ℕ
      → (List (Multiaddr Ip PeerId Other) → List (Multiaddr Ip PeerId Other))
      → (Multiaddr Ip PeerId Other → Result Conn E)
      → E
      → Multiaddr Ip PeerId Other
      → Outcome (Result Conn E)
  unfolding lookup try_resolved
  connect R limit shuffle transport_connect unresolved raddr = elim (lookup R limit raddr) [
    | ok raddrs ↦ try_resolved shuffle transport_connect unresolved raddrs
    | err error ↦ done (err error)
  ]
