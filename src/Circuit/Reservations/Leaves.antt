-- ===== src/Circuit/Reservations/Leaves.antt =====
-- What a reservation leaves behind: the counter of the reservations, and the addresses behind the relay.
use xstack.Base.{
  All, ap, ◌≢◌, ◌⊎◌, ℕ, ◌+◌, ◌^◌, ◌<◌, ◌≡◌, refl, arith, List, [], ◌∷◌, ◌++◌, Bool, true, false,
  ◌&&◌, ◌||◌, not, contains, inl, inr,
}
use xstack.Base.Outcome.{done}
use xstack.Base.Result.{Result, ok, err}
use xstack.AutoNat.{AutoNat, public, nat, unknown, same}
use xstack.Rpc.{Io}
use xstack.Switch.Addresses.{MutableSwitch, extend, delete_all}
use xstack.Switch.Addresses.Relayed.{contains-delete_all, contains-extend}
use xstack.Switch.State.{Net, Addr, Failure}
use xstack.Circuit.{xstack_error, Reservation}
use xstack.Circuit.Calls.{Codec, circuit_v2_hop_reserve}
use xstack.Circuit.Reservations.{
  Client, Round, End, returned, running, Connect, count_up, set_nat_addrs, keep_alive, round,
  over_circuit, with_switch, on_ping_stream, hold, reservation_client_loop,
}

module _ (N : Net) where
  open N use {addr_discrete}

  abbrev pub is_nat_addr : Client N → Addr N → Bool
  is_nat_addr s a = contains addr_discrete s.mutable_switch.nat_addrs a

  -- The addresses of a client, with those of a reservation and without them.
  abbrev pub Has : List (Addr N) → Client N → Client N → Type 0
  Has addrs s t =
      (a : Addr N) → is_nat_addr t a ≡ (is_nat_addr s a || contains addr_discrete addrs a)

  abbrev pub Lacks : List (Addr N) → Client N → Client N → Type 0
  Lacks addrs s t =
      (a : Addr N) → is_nat_addr t a ≡ (is_nat_addr s a && not (contains addr_discrete addrs a))

  -- A round after which the loop goes on.
  abbrev pub IsQuiet : Round N → Type 0
  IsQuiet r = (r.lasts ≡ true) × (r.ping ≡ ok tt) × (r.network ≡ nat)

  -- What the loop leaves when it ends in a round, by what happens in this round.
  abbrev pub EndsAt : List (Addr N) → Client N → Round N → Client N × End N → Type 0
  EndsAt addrs s r (t, end) =
      ((r.lasts ≡ false)
        × (end ≡ returned (ok tt))
        × (t.reservations ≡ s.reservations + 1)
        × Lacks addrs s t)
      ⊎ ((e : Failure N) × (r.lasts ≡ true)
          × (r.ping ≡ err e)
          × (end ≡ returned (err (xstack_error e)))
          × (t.reservations ≡ s.reservations)
          × Lacks addrs s t)
      ⊎ ((r.lasts ≡ true)
          × (r.ping ≡ ok tt)
          × (r.network ≢ nat)
          × (end ≡ returned (ok tt))
          × (t.reservations ≡ s.reservations)
          × Has addrs s t)

  -- What a task that holds a reservation leaves of a client: it is running, or it has ended in the
  -- first round that is not quiet.
  abbrev pub Leaves : List (Addr N) → Client N → List (Round N) → Client N × End N → Type 0
  Leaves addrs s rounds (t, end) =
      (All IsQuiet rounds × (end ≡ running) × (t.reservations ≡ s.reservations + 1) × Has addrs s t)
      ⊎ ((front : List (Round N)) × (r : Round N) × (rest : List (Round N)) × (rounds
            ≡ front ++ r ∷ rest)
          × All IsQuiet front
          × EndsAt addrs s r (t, end))

  abbrev entered : List (Addr N) → Client N → Client N
  entered addrs s = set_nat_addrs N addrs (count_up N s)

  without :
      (addrs : List (Addr N)) (s : Client N) (a : Addr N)
      → contains addr_discrete
          (delete_all addr_discrete (extend addr_discrete s.mutable_switch.nat_addrs addrs) addrs)
          a
        ≡ (is_nat_addr s a && not (contains addr_discrete addrs a))
  without addrs s a = ground (
    arith,
    contains-delete_all addr_discrete (extend addr_discrete s.mutable_switch.nat_addrs addrs) addrs
        a,
    contains-extend addr_discrete s.mutable_switch.nat_addrs addrs a,
  )

  Leaves-cons :
      (addrs : List (Addr N)) (s : Client N) (r : Round N) (rounds : List (Round N))
      (o : Client N × End N)
      → IsQuiet r
      → Leaves addrs s rounds o
      → Leaves addrs s (r ∷ rounds) o
  Leaves-cons addrs s r rounds o quiet (inl (all_quiet, e, count, has)) =
      inl ((quiet, all_quiet), e, count, has)
  Leaves-cons addrs s r rounds o quiet (inr (front, at, rest, order, all_quiet, ends)) =
      inr (r ∷ front, at, rest, ap (λ l. r ∷ l) order, (quiet, all_quiet), ends)

  same-nat : (n : AutoNat) → same n nat ≡ true → n ≡ nat
  same-nat nat e = refl
  same-nat public e = absurd (ground (arith, e))
  same-nat unknown e = absurd (ground (arith, e))

  same-other : (n : AutoNat) → same n nat ≡ false → n ≢ nat
  same-other n e is_nat = ground (arith, e, ap (λ m. same m nat) is_nat)

  round-Leaves :
      (addrs : List (Addr N)) (s : Client N) (r : Round N) (rounds : List (Round N))
      (rest : Client N × End N) (lasts : Bool) (ping : Result (Unit {0}) (Failure N))
      (behind_nat : Bool)
      → s.reservations + 1 < 2 ^ 64
      → r.lasts ≡ lasts
      → r.ping ≡ ping
      → same r.network nat ≡ behind_nat
      → Leaves addrs s rounds rest
      → Leaves addrs s (r ∷ rounds) (round N addrs (entered addrs s) rest lasts ping behind_nat)
  round-Leaves addrs s r rounds rest false ping behind_nat h l p n later =
      inr ([], r, rounds, refl, tt, inl (l, refl, omega arith, without addrs s))
  round-Leaves addrs s r rounds rest true (err e) behind_nat h l p n later =
      inr ([], r, rounds, refl, tt, inr (inl (e, l, p, refl, omega arith, without addrs s)))
  round-Leaves addrs s r rounds rest true (ok u) false h l p n later = inr (
    [],
    r,
    rounds,
    refl,
    tt,
    inr (
        inr (
          l,
          p,
          same-other r.network n,
          refl,
          omega arith,
          contains-extend addr_discrete s.mutable_switch.nat_addrs addrs,
        )),
  )
  round-Leaves addrs s r rounds rest true (ok u) true h l p n later =
      Leaves-cons addrs s r rounds rest (l, p, same-nat r.network n) later

  keep_alive-Leaves :
      (addrs : List (Addr N)) (s : Client N) (rounds : List (Round N))
      → s.reservations + 1 < 2 ^ 64
      → Leaves addrs s rounds (keep_alive N addrs (entered addrs s) rounds)
  unfolding keep_alive
  keep_alive-Leaves addrs s [] h =
      inl (tt, refl, omega arith, contains-extend addr_discrete s.mutable_switch.nat_addrs addrs)
  keep_alive-Leaves addrs s (r ∷ rounds) h =
      round-Leaves addrs s r rounds (keep_alive N addrs (entered addrs s) rounds) r.lasts r.ping
        (same r.network nat) h refl refl refl (keep_alive-Leaves addrs s rounds h)

  -- What becomes of a reservation, by whether the stream for pings opens.
  abbrev pub Holds :
      List (Addr N)
      → Client N
      → Result (Unit {0}) (Failure N) × MutableSwitch (Addr N)
      → List (Round N)
      → Client N × End N
      → Type 0
  Holds addrs s (err e, m) rounds (t, end) =
      (end ≡ returned (err (xstack_error e)))
      × (t.reservations ≡ s.reservations)
      × (t.mutable_switch ≡ m)
  Holds addrs s (ok u, m) rounds o = Leaves addrs (with_switch N s m) rounds o

  hold-Holds :
      (reservation : Reservation (Addr N)) (rounds : List (Round N)) (s : Client N)
      (o : Result (Unit {0}) (Failure N) × MutableSwitch (Addr N))
      → s.reservations + 1 < 2 ^ 64
      → Holds
          (over_circuit N reservation.addrs)
          s
          o
          rounds
          (on_ping_stream N reservation rounds (count_up N s) o)
  hold-Holds reservation rounds s (err e, m) h = (refl, omega arith, refl)
  hold-Holds reservation rounds s (ok u, m) h =
      keep_alive-Leaves (over_circuit N reservation.addrs) (with_switch N s m) rounds h

  -- The task that is granted a reservation returns or runs on, where no other task changes the
  -- counter or the addresses and the counter does not wrap around. Where the stream for pings does not
  -- open, it returns the error, the counter is as before, and the addresses are as connecting left
  -- them. While each round goes well, the task runs, the counter is raised and the addresses of the
  -- reservation are there. In the first round that does not go well, it returns. If the ping fails, it
  -- returns the error, the counter is as before and the addresses are gone. If the reservation has
  -- lapsed, they are gone too, but the counter stays raised. If the network is another, the counter is
  -- as before, but the addresses stay.
  pub reservation_client_loop-Holds :
      (C : Codec N) (max : ℕ) (peer : N.PeerId) (peers : List N.PeerId)
      (open_hop : N.PeerId → Connect N Io) (io io' : Io) (m : MutableSwitch (Addr N))
      (reservation : Reservation (Addr N)) (ping_stream : Connect N (Unit {0}))
      (rounds : List (Round N)) (s : Client N)
      → s.reservations + 1 < 2 ^ 64
      → open_hop peer s.mutable_switch ≡ (ok io, m)
      → circuit_v2_hop_reserve N C max io ≡ done (ok reservation, io')
      → (o : Client N × End N) × (reservation_client_loop N C max
            (ok (peer ∷ peers))
            open_hop
            ping_stream
            rounds
            s
          ≡ done o)
        × Holds (over_circuit N reservation.addrs) s (ping_stream m) rounds o
  unfolding reservation_client_loop
  reservation_client_loop-Holds C max peer peers open_hop io io' m reservation ping_stream rounds s
        h opens granted =
      let s' : Client N = with_switch N s m in
      (
        hold N reservation ping_stream rounds s',
        rw (opens, granted) refl,
        hold-Holds reservation rounds s (ping_stream m) h,
      )
