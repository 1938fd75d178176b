-- ===== src/Pool/Connect/Replied.antt =====
-- What connecting by the pool gives, and the pool after it.
use native.Mathlib.Omega.{arith}
use xstack.Base.{
  ℕ, ◌+◌, ◌<◌, ◌≡◌, ◌⊎◌, inl, inr, refl, List, [], ◌∷◌, ◌++◌, Option, none, some, false, length,
  if_pos,
}
use xstack.Base.Outcome.{Outcome, done, panic, out_of_fuel, ◌>>=◌}
use xstack.Pool.{Wire, Health, PoolOf, add, by_peer_id, by_raddr}
use xstack.Pool.Connect.{
  Reply, connected, refused, empty_peer_addrs, peer_not_found, Dialer, Answer, dial_each,
  connect_raddrs, pooled_or, try_raddrs, connect, connect_known, connect_to,
}
use xstack.Pool.Consistent.{AreClones, Held, IsConsistent}
use xstack.Pool.History.{Event, step, run, run-Kept}
use xstack.Pool.Limits.{add-Trimmed}
use xstack.Pool.Lookup.{by_peer_id-Serves, by_raddr-ServesAddr}

module _ (W : Wire) (D : Dialer W) (pick : List W.ConnId → ℕ) (h : Health W.Conn) where
  open W use {Conn, Addr, PeerId, ConnId, peer_of, id_discrete, id}
  open D use {Error, dial, meanwhile, shuffle, length-shuffle}

  -- The operations on the pool during the dials of so many addresses, in order.
  abbrev pub operations : List Addr → List (Health Conn × Event Conn ConnId)
  operations [] = []
  operations (a ∷ addrs) = meanwhile a (length addrs) ++ operations addrs

  -- Each address refuses, and this is the error of the last, or of what was dialed before.
  abbrev pub AllRefuse : List Addr → Option Error → Error → Type 0
  AllRefuse [] last_error err = last_error ≡ some err
  AllRefuse (a ∷ addrs) last_error err =
      (e : Error) × (dial a (length addrs) ≡ inl e) × AllRefuse addrs (some e) err

  -- What dials give, and the pool that comes with it: a connection that is in the pool, or the error
  -- of the last address, where all refuse, and the pool as the operations during the dials made it.
  abbrev pub DialFits : List Addr → Option Error → PoolOf W → PoolOf W → Reply Conn Error → Type 0
  DialFits addrs last_error s t (connected conn) = Held W t (peer_of conn) conn
  DialFits addrs last_error s t (refused err) =
      (run W s (operations addrs) ≡ done t) × AllRefuse addrs last_error err
  DialFits addrs last_error s t _ = ⊥

  abbrev pub ConnectFits : List Addr → PoolOf W → PoolOf W → Reply Conn Error → Type 0
  ConnectFits [] s t reply = (reply ≡ empty_peer_addrs) × (t ≡ s)
  ConnectFits (a ∷ addrs) s t reply = DialFits (shuffle (a ∷ addrs)) none s t reply

  abbrev pub KnownFits :
      Error ⊎ Option (List Addr) → PoolOf W → PoolOf W → Reply Conn Error → Type 0
  KnownFits known s t (connected conn) = Held W t (peer_of conn) conn
  KnownFits known s t (refused err) =
      ((known ≡ inl err) × (t ≡ s))
      ⊎ ((addrs : List Addr) × (known ≡ inr (some addrs))
          × DialFits (shuffle addrs) none s t (refused err))
  KnownFits known s t empty_peer_addrs = ⊥
  KnownFits known s t peer_not_found = ((known ≡ inr none) ⊎ (known ≡ inr (some []))) × (t ≡ s)

  -- An answer that leaves a consistent pool and fits.
  pub record Replied (Fits : PoolOf W → Reply Conn Error → Type 0) (o : Answer W D pick h)
      : Type 0 where
    pub state : PoolOf W
    pub reply : Reply Conn Error
    pub returns : o ≡ done (state, reply)
    pub consistent : IsConsistent W state
    pub fits : Fits state reply

  abbrev size : Option Error → ℕ
  size none = 0
  size (some err) = 1

  run-append :
      (s : PoolOf W) (es fs : List (Health Conn × Event Conn ConnId))
      → run W s (es ++ fs) ≡ (run W s es >>= λ t. run W t fs)
  unfolding run
  run-append s [] fs = refl
  run-append s ((health, event) ∷ es) fs = go (step W health s event) λ t. run-append t es fs
    where
      go :
          (o : Outcome (PoolOf W))
          → ((t : PoolOf W) → run W t (es ++ fs) ≡ (run W t es >>= λ u. run W u fs))
          → (o >>= λ t. run W t (es ++ fs)) ≡ ((o >>= λ t. run W t es) >>= λ u. run W u fs)
      go (done t) ih = ih t
      go panic ih = refl
      go out_of_fuel ih = refl

  DialFits-cons :
      (a : Addr) (addrs : List Addr) (last_error : Option Error) (err : Error) (s t u : PoolOf W)
      (reply : Reply Conn Error)
      → run W s (meanwhile a (length addrs)) ≡ done t
      → dial a (length addrs) ≡ inl err
      → DialFits addrs (some err) t u reply
      → DialFits (a ∷ addrs) last_error s u reply
  DialFits-cons a addrs last_error err s t u (connected conn) e refuses fits = fits
  DialFits-cons a addrs last_error err s t u (refused err') e refuses (ran, all) = (
    rw (run-append s (meanwhile a (length addrs)) (operations addrs), e) ran,
    (err, refuses, all),
  )
  DialFits-cons a addrs last_error err s t u empty_peer_addrs e refuses fits = elim fits [ ]
  DialFits-cons a addrs last_error err s t u peer_not_found e refuses fits = elim fits [ ]

  dial_each-Replied :
      (s : PoolOf W) (addrs : List Addr) (last_error : Option Error)
      → AreClones W
      → IsConsistent W s
      → 0 < length addrs + size last_error
      → Replied (DialFits addrs last_error s) (dial_each W D pick h s addrs last_error)
  unfolding dial_each run
  dial_each-Replied s [] none clones v some_left = absurd (omega arith)
  dial_each-Replied s [] (some err) clones v some_left = record {
    state = s;
    reply = refused err;
    returns = refl;
    consistent = v;
    fits = (refl, refl);
  }
  dial_each-Replied s (a ∷ addrs) last_error clones v some_left =
      let k = run-Kept W s (meanwhile a (length addrs)) clones v in
      let r =
        go k.state k.returns k.consistent (dial a (length addrs)) refl
          (λ err. dial_each-Replied k.state addrs (some err) clones k.consistent (omega arith)) in
      record {
        state = r.state;
        reply = r.reply;
        returns = rw k.returns r.returns;
        consistent = r.consistent;
        fits = r.fits;
      }
    where
      go :
          (t : PoolOf W)
          → run W s (meanwhile a (length addrs)) ≡ done t
          → IsConsistent W t
          → (r : Error ⊎ Conn) → dial a (length addrs) ≡ r
          → ((err : Error)
              → Replied (DialFits addrs (some err) t) (dial_each W D pick h t addrs (some err)))
          → Replied (DialFits (a ∷ addrs) last_error s) (elim r [
            | inl err ↦ dial_each W D pick h t addrs (some err)
            | inr conn ↦ add W h t conn false >>= λ u. done (u, connected conn)
          ])
      go t ran w (inl err) refuses rest =
          let later = rest err in
          record {
            state = later.state;
            reply = later.reply;
            returns = later.returns;
            consistent = later.consistent;
            fits =
                DialFits-cons a addrs last_error err s t later.state later.reply ran refuses
                  later.fits;
          }
      go t ran w (inr conn) dials rest =
          let u = add-Trimmed W h t conn false clones w in
          record {
            state = u.state;
            reply = connected conn;
            returns = rw u.returns refl;
            consistent = u.consistent;
            fits = record {
              name = id conn;
              found = rw (u.left (id conn), if_pos (id_discrete (id conn) (id conn)) refl) refl;
              of_peer = refl;
            };
          }

  connect_raddrs-Replied :
      (s : PoolOf W) (a : Addr) (addrs : List Addr)
      → AreClones W
      → IsConsistent W s
      → Replied (DialFits (shuffle (a ∷ addrs)) none s) (connect_raddrs W D pick h s (a ∷ addrs))
  connect_raddrs-Replied s a addrs clones v =
      dial_each-Replied s (shuffle (a ∷ addrs)) none clones v
        (omega (arith, length-shuffle (a ∷ addrs)))

  pooled-Replied :
      (Fits : PoolOf W → Reply Conn Error → Type 0) (s : PoolOf W) (c : Conn)
      (o : Outcome (Option Conn)) (otherwise : Answer W D pick h)
      → o ≡ done (some c)
      → IsConsistent W s
      → Fits s (connected c)
      → Replied Fits (o >>= pooled_or W D pick h s otherwise)
  pooled-Replied Fits s c o otherwise e v fits = record {
    state = s;
    reply = connected c;
    returns = rw e refl;
    consistent = v;
    fits = fits;
  }

  try_raddrs-Replied :
      (Fits : PoolOf W → Reply Conn Error → Type 0) (s : PoolOf W) (addrs : List Addr)
      (otherwise : Answer W D pick h)
      → IsConsistent W s
      → ((c : Conn) → Held W s (peer_of c) c → Fits s (connected c))
      → Replied Fits otherwise
      → Replied Fits (try_raddrs W D pick h s addrs otherwise)
  unfolding try_raddrs
  try_raddrs-Replied Fits s [] otherwise v pooled r = r
  try_raddrs-Replied Fits s (a ∷ addrs) otherwise v pooled r =
      elim (by_raddr-ServesAddr W pick s a v) [
        | inl (e, unknown) ↦ rw e (try_raddrs-Replied Fits s addrs otherwise v pooled r)
        | inr (c, d, e, at, held, dialed) ↦
            pooled-Replied Fits s c (by_raddr W pick s a) (try_raddrs W D pick h s addrs otherwise)
              e v (pooled c (record { name = held.name; found = held.found; of_peer = refl }))
      ]

  known-Replied :
      (s : PoolOf W) (known : Error ⊎ Option (List Addr))
      → AreClones W
      → IsConsistent W s
      → Replied (KnownFits known s) (connect_known W D pick h s known)
  known-Replied s (inl err) clones v = record {
    state = s;
    reply = refused err;
    returns = refl;
    consistent = v;
    fits = inl (refl, refl);
  }
  known-Replied s (inr none) clones v = record {
    state = s;
    reply = peer_not_found;
    returns = refl;
    consistent = v;
    fits = (inl refl, refl);
  }
  known-Replied s (inr (some [])) clones v = record {
    state = s;
    reply = peer_not_found;
    returns = refl;
    consistent = v;
    fits = (inr refl, refl);
  }
  known-Replied s (inr (some (a ∷ addrs))) clones v =
      let r = connect_raddrs-Replied s a addrs clones v in
      record {
        state = r.state;
        reply = r.reply;
        returns = r.returns;
        consistent = r.consistent;
        fits = go r.state r.reply r.fits;
      }
    where
      go :
          (t : PoolOf W) (reply : Reply Conn Error)
          → DialFits (shuffle (a ∷ addrs)) none s t reply
          → KnownFits (inr (some (a ∷ addrs))) s t reply
      go t (connected conn) fits = fits
      go t (refused err) fits = inr (a ∷ addrs, refl, fits)
      go t empty_peer_addrs fits = elim fits [ ]
      go t peer_not_found fits = elim fits [ ]

  connect-Replied :
      (s : PoolOf W) (addrs : List Addr)
      → AreClones W
      → IsConsistent W s
      → Replied (ConnectFits addrs s) (connect W D pick h s addrs)
  unfolding connect
  connect-Replied s [] clones v = record {
    state = s;
    reply = empty_peer_addrs;
    returns = refl;
    consistent = v;
    fits = (refl, refl);
  }
  connect-Replied s (a ∷ addrs) clones v =
      try_raddrs-Replied (ConnectFits (a ∷ addrs) s) s (a ∷ addrs)
        (connect_raddrs W D pick h s (a ∷ addrs)) v (λ c held. held)
        (connect_raddrs-Replied s a addrs clones v)

  connect_to-Replied :
      (s : PoolOf W) (p : PeerId) (known : Error ⊎ Option (List Addr))
      → AreClones W
      → IsConsistent W s
      → Replied (KnownFits known s) (connect_to W D pick h s p known)
  unfolding connect_to
  connect_to-Replied s p known clones v = elim (by_peer_id-Serves W pick s p v) [
    | inl (e, never) ↦ rw e (known-Replied s known clones v)
    | inr (c, e, held) ↦
        pooled-Replied (KnownFits known s) s c (by_peer_id W pick s p)
          (connect_known W D pick h s known) e v
          (record { name = held.name; found = held.found; of_peer = refl })
  ]

  -- On a consistent pool `connect` and `connect_to` return, whatever the dials and the random choices
  -- give and whatever operations are carried out on the pool during the dials: nothing is unwrapped
  -- that is not there, and the pool stays consistent. A connection that they return is then in the
  -- pool. They give the error of a dial only where all addresses refuse: that of the last one, with the
  -- pool as the operations during the dials, in order, made it. Any other error leaves the pool as it
  -- was: `connect` gives it exactly where it has no address, and `connect_to` only where looking up the
  -- peer fails, with its error, or gives no address.
  pub connects-Replied :
      (s : PoolOf W) (addrs : List Addr) (p : PeerId) (known : Error ⊎ Option (List Addr))
      → AreClones W
      → IsConsistent W s
      → Replied (ConnectFits addrs s) (connect W D pick h s addrs)
        × Replied (KnownFits known s) (connect_to W D pick h s p known)
  connects-Replied s addrs p known clones v =
      (connect-Replied s addrs clones v, connect_to-Replied s p known clones v)
