-- ===== src/Tests/Dns.antt =====
-- Addresses of names and of numbers, and their resolution.
use xstack.Base.{ℕ, zero, suc, ◌≡◌, refl, List, [], ◌∷◌, ◌++◌, false, All, reverse, length-reverse}
use xstack.Base.Result.{Result, ok, err}
use xstack.Multiaddr.{
  ip4, tcp, udp, dns, dns4, dnsaddr, p2p, quic_v1, Multiaddr, v4, is_dnsaddr_transport, any,
}
use xstack.Dns.{
  Resolver, dns_lookup, lookup, connect, resolve, spread, read_texts, strip_prefix, lookup_loop,
  gather, sort_out, lookup_in_time, dnsaddr_prefix,
}
use xstack.Dns.Names.{dns_lookup_lem}
use xstack.Dns.Rounds.{lookup-All}
use xstack.Dns.Connect.{Ends, connect-Ends}

abbrev Address : Type 0
Address = Multiaddr ℕ ℕ ℕ

-- Two IP addresses for each name, and one text, that is parsed to a name with a port.
abbrev parse : List ℕ → Result Address (Unit {0})
parse [] = err tt
parse (port ∷ _) = ok (dns (104 ∷ []) ∷ tcp port ∷ [])

abbrev resolver : Resolver ℕ ℕ ℕ (Unit {0})
resolver = record {
  lookup_ip = λ _. ok (v4 1 ∷ v4 2 ∷ []);
  lookup_txt = λ _. ok ((120 ∷ []) ∷ (dnsaddr_prefix ++ 80 ∷ []) ∷ []);
  parse = parse;
  is_late = λ _. false;
  timeout = tt;
}

abbrev quic_addr : Address
quic_addr = ip4 7 ∷ udp 443 ∷ quic_v1 ∷ []

dns_lookup_lem_example :
    dns_lookup resolver (dns4 (104 ∷ []) ∷ tcp 80 ∷ [])
    ≡ ok ((ip4 1 ∷ tcp 80 ∷ []) ∷ (ip4 2 ∷ tcp 80 ∷ []) ∷ [])
unfolding any
dns_lookup_lem_example =
    dns_lookup_lem resolver [] (tcp 80 ∷ []) (dns4 (104 ∷ [])) (104 ∷ []) (v4 1 ∷ v4 2 ∷ []) refl
      refl refl refl

abbrev found : List Address
found = (ip4 1 ∷ tcp 80 ∷ []) ∷ (ip4 2 ∷ tcp 80 ∷ []) ∷ []

nested : lookup (λ _. resolver) 10 (dnsaddr (120 ∷ []) ∷ p2p 5 ∷ []) ≡ ok found
unfolding lookup lookup_loop gather sort_out lookup_in_time dns_lookup resolve spread read_texts
    strip_prefix is_dnsaddr_transport any
nested = refl

all_units : (addrs : List Address) → All (λ addr. Unit {0}) addrs
all_units [] = tt
all_units (addr ∷ addrs) = (tt, all_units addrs)

lookup-All_example : All (λ addr. Unit {0} × (is_dnsaddr_transport addr ≡ false)) found
lookup-All_example =
    lookup-All (λ _. Unit {0}) (λ _. resolver) 10 (dnsaddr (120 ∷ []) ∷ p2p 5 ∷ []) found
      (λ n addr out _ _. all_units out) tt nested

-- Only the IP address 2 can be reached.
abbrev reach : Address → Result ℕ (Unit {0})
reach (ip4 (suc (suc zero)) ∷ _) = ok 9
reach _ = err tt

connect-Ends_example :
    Ends reach reverse tt
      (lookup (λ _. resolver) 10 (dnsaddr (120 ∷ []) ∷ p2p 5 ∷ []))
      (connect (λ _. resolver) 10 reverse reach tt (dnsaddr (120 ∷ []) ∷ p2p 5 ∷ []))
connect-Ends_example =
    connect-Ends reach reverse tt (λ _. resolver) 10 (dnsaddr (120 ∷ []) ∷ p2p 5 ∷ [])
      length-reverse
