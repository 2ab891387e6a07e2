-- ===== src/Proxy/Conns.antt =====
-- cmd/claw/proxy_manager.go: a table of open connections, TCP ones under numbers and WebSocket ones
-- under session ids. A connection is shared by the table and its read loop: it stands in `store`,
-- and the table holds its place.
use clianywhere_daemon.Prelude.{ℕ, ◌+◌, Bool, true, false, none, some, [], ◌∷◌, nat_key, Key}
use clianywhere_daemon.Prelude.Assoc.{Map, lookup, insert, delete}

-- `closed` says that `once` has run: the channel cancel and the connection are closed.
pub record ProxyConn {ℓ} (K : Type ℓ) : Type ℓ where
  pub key : K
  pub closed : Bool

pub record Pool {ℓ} (K : Type ℓ) : Type ℓ where
  pub store : Map ℕ (ProxyConn K)
  pub allocated : ℕ
  pub conns : Map K ℕ

module _ {ℓ} {K : Type ℓ} where
  unfoldable pub empty_pool : Pool K
  empty_pool = record { store = []; allocated = 0; conns = [] }

  -- `once.Do(func() { close(cancel); conn.Close() })`
  unfoldable pub close_conn : ℕ → Map ℕ (ProxyConn K) → Map ℕ (ProxyConn K)
  close_conn place store = elim (lookup place store) [
    | none ↦ store
    | some c ↦ insert place (record c { closed = true }) store
  ]

  unfoldable pub close_conns : Map K ℕ → Map ℕ (ProxyConn K) → Map ℕ (ProxyConn K)
  close_conns [] store = store
  close_conns ((k, place) ∷ rest) store = close_conns rest (close_conn place store)

  -- CloseAll, for one of the tables
  unfoldable pub close_all : Pool K → Pool K
  close_all p = record p { store = close_conns p.conns p.store; conns = [] }

module _ {ℓ} {K : Type ℓ} ⦃key : Key K⦄ where
  -- The registration in HandleConnect and HandleWsConnect
  unfoldable pub register : K → Pool K → Pool K
  register k p = record {
    store = insert p.allocated (record { key = k; closed = false }) p.store;
    allocated = p.allocated + 1;
    conns = insert k p.allocated p.conns;
  }

  -- removeConn and removeWsConn
  unfoldable pub remove_conn : K → Pool K → Pool K
  remove_conn k p = elim (lookup k p.conns) [
    | none ↦ p
    | some place ↦ record p { store = close_conn place p.store; conns = delete k p.conns }
  ]
