-- ===== src/Dispatcher/Handshake.antt =====
-- Streams that come during a handshake, and the order in which a listener gets its streams.
use mathlib.Core.List.{append_assoc, append-nil}
use xstack.Base.{◌≡◌, refl, sym, ap, ◌∙◌, List, [], ◌∷◌, ◌++◌, All}
use xstack.Base.Map
use xstack.Base.Map.{Map, get-insert_self, insert-insert, remove-insert}
use xstack.Base.Outcome.{done, ◌>>=◌}
use xstack.Dispatcher.{
  Names, Inbound, Dispatcher, handshake, dispatch, dispatch_all, route, release, handshake_failed,
  handshake_success,
}

module _ (N : Names) where
  open N use {Stream, Protocol, ConnId, ListenerId, conn_discrete, conn_id}

  -- The dispatcher while the handshake of a connection is under way, with the streams that came.
  abbrev pub holding : Dispatcher N → ConnId → List (Inbound N) → Dispatcher N
  holding s c xs = record s { unauth_streams = Map.insert conn_discrete c xs s.unauth_streams }

  abbrev pub IsOf : ConnId → Inbound N → Type 0
  IsOf c x = conn_id x.0 ≡ c

  dispatch-holding :
      (s : Dispatcher N) (c : ConnId) (xs : List (Inbound N)) (x : Inbound N)
      → IsOf c x
      → dispatch N (holding s c xs) x ≡ done (holding s c (xs ++ x ∷ []))
  unfolding dispatch
  dispatch-holding s c xs x e =
      rw
        (
          e,
          get-insert_self conn_discrete c xs s.unauth_streams,
          route,
          e,
          insert-insert conn_discrete c xs (xs ++ x ∷ []) s.unauth_streams,
        )
        refl

  pub dispatch_all-holding :
      (s : Dispatcher N) (c : ConnId) (xs ys : List (Inbound N))
      → All (IsOf c) ys
      → dispatch_all N (holding s c xs) ys ≡ done (holding s c (xs ++ ys))
  unfolding dispatch_all
  dispatch_all-holding s c xs [] h = ap (λ l. done (holding s c l)) (sym (append-nil xs))
  dispatch_all-holding s c xs (y ∷ ys) h = rw (dispatch-holding s c xs y h.0) (
      dispatch_all-holding s c (xs ++ y ∷ []) ys h.1
      ∙ ap (λ l. done (holding s c l)) (append_assoc xs (y ∷ []) ys))

  -- The streams of a connection that come during its handshake reach their listeners as if they all
  -- came, in the same order, after a handshake that succeeds, and are dropped by one that fails.
  pub handshake_lem :
      (s : Dispatcher N) (c : ConnId) (xs : List (Inbound N))
      → All (IsOf c) xs
      → ((dispatch_all N (handshake N s c) xs >>= λ t. handshake_success N t c)
          ≡ dispatch_all N (release N s c) xs)
        × ((dispatch_all N (handshake N s c) xs >>= λ t. done (handshake_failed N t c))
            ≡ done (release N s c))
  unfolding handshake handshake_success handshake_failed
  handshake_lem s c xs h = (
    rw
        (
          dispatch_all-holding s c [] xs h,
          get-insert_self conn_discrete c xs s.unauth_streams,
          remove-insert conn_discrete c xs s.unauth_streams,
        )
        refl,
    rw (dispatch_all-holding s c [] xs h, remove-insert conn_discrete c xs s.unauth_streams) refl,
  )
