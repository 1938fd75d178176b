-- ===== src/Dns/Names.antt =====
-- What an address with one name is resolved to.
use mathlib.Core.List.{append_assoc, append-nil}
use xstack.Base.{
  ◌≡◌, refl, sym, ap, ◌∙◌, List, [], ◌∷◌, ◌++◌, map, Option, none, some, false, arith, ℕ,
}
use xstack.Base.Result.{ok}
use xstack.Multiaddr.{Protocol, dns, dns4, dns6, dnsaddr, Multiaddr, IpAddr, is_name, any}
use xstack.Dns.{Resolver, to_protocol, push, spread, resolve, dns_lookup}

abbrev lookup_of : List ℕ → Option (List ℕ) → List ℕ
lookup_of n none = n
lookup_of n (some m) = m

module _ {Ip PeerId Other : Type 0} where
  -- The name of a protocol that stands for IP addresses.
  abbrev pub host_of : Protocol Ip PeerId Other → Option (List ℕ)
  host_of (dns name) = some name
  host_of (dns4 name) = some name
  host_of (dns6 name) = some name
  host_of _ = none

  map-push :
      (proto : Protocol Ip PeerId Other) (rest : Multiaddr Ip PeerId Other)
      (stacks : List (Multiaddr Ip PeerId Other))
      → map (λ stack. stack ++ rest) (map (push proto) stacks)
        ≡ map (λ stack. stack ++ proto ∷ rest) stacks
  map-push proto rest [] = refl
  map-push proto rest (stack ∷ stacks) =
      rw (append_assoc stack (proto ∷ []) rest, map-push proto rest stacks) refl

  map-nil : (stacks : List (Multiaddr Ip PeerId Other)) → map (λ stack. stack ++ []) stacks ≡ stacks
  map-nil [] = refl
  map-nil (stack ∷ stacks) = rw (append-nil stack, map-nil stacks) refl

  map-spread :
      (after : Multiaddr Ip PeerId Other) (ips : List (IpAddr Ip))
      → map (λ stack. stack ++ after) (spread [] ips) ≡ map (λ ip. to_protocol ip ∷ after) ips
  unfolding spread
  map-spread after [] = refl
  map-spread after (ip ∷ ips) = rw (map-spread after ips)

module _ {Ip PeerId Other E : Type 0} (R : Resolver Ip PeerId Other E) where
  open R use {lookup_ip}

  -- Protocols that are no names are added to each of the stacks.
  resolve-append :
      (before rest : Multiaddr Ip PeerId Other) (stacks : List (Multiaddr Ip PeerId Other))
      → any is_name before ≡ false
      → resolve R stacks (before ++ rest) ≡ resolve R (map (λ stack. stack ++ before) stacks) rest
  unfolding resolve any
  resolve-append [] rest stacks h = ap (λ s. resolve R s rest) (sym (map-nil stacks))
  resolve-append (dns n ∷ before) rest stacks h = absurd (ground (arith, h))
  resolve-append (dns4 n ∷ before) rest stacks h = absurd (ground (arith, h))
  resolve-append (dns6 n ∷ before) rest stacks h = absurd (ground (arith, h))
  resolve-append (dnsaddr n ∷ before) rest stacks h = absurd (ground (arith, h))
  resolve-append (proto ∷ before) rest stacks h =
      resolve-append before rest (map (push proto) stacks) h
      ∙ ap (λ s. resolve R s rest) (map-push proto before stacks)

  resolve-host :
      (host : Protocol Ip PeerId Other) (name : List ℕ) (ips : List (IpAddr Ip))
      (after : Multiaddr Ip PeerId Other)
      → host_of host ≡ some name
      → lookup_ip name ≡ ok ips
      → resolve R [] (host ∷ after) ≡ resolve R (spread [] ips) after
  unfolding resolve
  resolve-host (dns n) name ips after h e = rw (ap (lookup_of n) h, e) refl
  resolve-host (dns4 n) name ips after h e = rw (ap (lookup_of n) h, e) refl
  resolve-host (dns6 n) name ips after h e = rw (ap (lookup_of n) h, e) refl
  resolve-host _ name ips after h e = absurd (ground (arith, h))

  -- An address with one name, of any of the three protocols for IP addresses, is resolved to one
  -- address for each of the IP addresses that the server answers, in their order: the IP address,
  -- and what follows the name. What stands before the name is left out.
  pub dns_lookup_lem :
      (before after : Multiaddr Ip PeerId Other) (host : Protocol Ip PeerId Other) (name : List ℕ)
      (ips : List (IpAddr Ip))
      → any is_name before ≡ false
      → any is_name after ≡ false
      → host_of host ≡ some name
      → lookup_ip name ≡ ok ips
      → dns_lookup R (before ++ host ∷ after) ≡ ok (map (λ ip. to_protocol ip ∷ after) ips)
  unfolding dns_lookup resolve
  dns_lookup_lem before after host name ips plain plain_after h e =
      resolve-append before (host ∷ after) [] plain
      ∙ resolve-host host name ips after h e
      ∙ ap (resolve R (spread [] ips)) (sym (append-nil after))
      ∙ resolve-append after [] (spread [] ips) plain_after
      ∙ ap ok (map-spread after ips)
