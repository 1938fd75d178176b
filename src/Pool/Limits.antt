-- ===== src/Pool/Limits.antt =====
-- `check_limits` and `add` of the connection pool: what stays.
use native.Mathlib.Omega.{arith}
use xstack.Base.{
  ◌≡◌, refl, List, [], ◌∷◌, Option, none, some, Bool, true, false, ite, contains, length, ltb,
  if◌then◌else◌,
}
use xstack.Base.Map
use xstack.Base.Map.{Map, IsMap, get-insert}
use xstack.Base.Outcome.{Outcome, done}
use xstack.Pool.{Wire, Health, PoolOf, remove_all, is_idle, check_limits, idle_ids, place, add}
use xstack.Pool.Consistent.{AreClones, find, IsConsistent, remove-Removed}
use xstack.Pool.Added.{place-IsConsistent}

module _ (W : Wire) (h : Health W.Conn) where
  open W use {Conn, ConnId, id_discrete, id}

  abbrev pub is_idle_at : Option Conn → Bool
  is_idle_at none = false
  is_idle_at (some conn) = is_idle W h conn

  -- What stays of a connection, in a pool that is over its limit or not.
  abbrev pub stays : Bool → Option Conn → Option Conn
  stays over o = if over then (if is_idle_at o then none else o) else o

  -- A pool that an operation makes, consistent and with the connections that `after` tells.
  pub record Trimmed (after : ConnId → Option Conn) (o : Outcome (PoolOf W)) : Type 0 where
    pub state : PoolOf W
    pub returns : o ≡ done state
    pub consistent : IsConsistent W state
    pub left : (j : ConnId) → find W state j ≡ after j

  remove_all-Trimmed :
      (s : PoolOf W) (ids : List ConnId)
      → IsConsistent W s
      → Trimmed
          (λ j. if contains id_discrete ids j then none else find W s j)
          (remove_all W h s ids)
  unfolding remove_all
  remove_all-Trimmed s [] v = record { state = s; returns = refl; consistent = v; left = λ j. refl }
  remove_all-Trimmed s (i ∷ ids) v =
      let r = remove-Removed W h s i v in
      let t = remove_all-Trimmed r.state ids r.consistent in
      record {
        state = t.state;
        returns = rw r.returns t.returns;
        consistent = t.consistent;
        left = λ j. ground (arith, t.left j, r.left j);
      }

  contains-idle_ids :
      (m : Map ConnId Conn) (j : ConnId)
      → IsMap id_discrete m
      → contains id_discrete (idle_ids W h m) j ≡ is_idle_at (Map.get id_discrete j m)
  unfolding idle_ids Map.get
  contains-idle_ids [] j u = refl
  contains-idle_ids ((i, c) ∷ m) j u = ground (arith, contains-idle_ids m j u.1, u.0)

  -- `check_limits` does not panic on a consistent pool; it is consistent after it. Over the limit all
  -- idle connections go and the others stay; up to the limit all stay.
  pub check_limits-Trimmed :
      (s : PoolOf W)
      → IsConsistent W s
      → Trimmed
          (λ j. stays (ltb s.max_pool_size (length s.conns)) (find W s j))
          (check_limits W h s)
  unfolding check_limits
  check_limits-Trimmed s v = go (ltb s.max_pool_size (length s.conns))
    where
      go :
          (over : Bool)
          → Trimmed
              (λ j. stays over (find W s j))
              (if over then remove_all W h s (idle_ids W h s.conns) else done s)
      go true =
          let t = remove_all-Trimmed s (idle_ids W h s.conns) v in
          record {
            state = t.state;
            returns = t.returns;
            consistent = t.consistent;
            left = λ j. rw (t.left j, contains-idle_ids s.conns j v.unique) refl;
          }
      go false = record { state = s; returns = refl; consistent = v; left = λ j. refl }

  find-place :
      (s : PoolOf W) (conn : Conn) (inbound : Bool) (o : Option Conn) (j : ConnId)
      → find W (place W s conn inbound o) j ≡ ite (id_discrete (id conn) j) (some conn) (find W s j)
  unfolding place
  find-place s conn inbound none j = get-insert id_discrete (id conn) j conn s.conns
  find-place s conn inbound (some older) j = get-insert id_discrete (id conn) j conn s.conns

  -- `add` does not panic on a consistent pool; it is consistent after it. The new connection is found
  -- under its identifier, and what else is found is what `check_limits` lets stay.
  pub add-Trimmed :
      (s : PoolOf W) (conn : Conn) (inbound : Bool)
      → AreClones W
      → IsConsistent W s
      → Trimmed
          (λ j.
            ite
              (id_discrete (id conn) j)
              (some conn)
              (stays (ltb s.max_pool_size (length s.conns)) (find W s j)))
          (add W h s conn inbound)
  unfolding add
  add-Trimmed s conn inbound clones v =
      let t = check_limits-Trimmed s v in
      record {
        state = place W t.state conn inbound (find W t.state (id conn));
        returns = rw t.returns refl;
        consistent = place-IsConsistent W t.state conn inbound clones t.consistent;
        left =
            λ j. rw (find-place t.state conn inbound (find W t.state (id conn)) j, t.left j) refl;
      }
