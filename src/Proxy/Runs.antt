-- ===== src/Proxy/Runs.antt =====
-- cmd/claw/proxy_manager.go: the tables through any sequence of the handlers.
use clianywhere_daemon.Prelude.{
  not, ◌&&◌, nat_key, string_key, inl, inr, nat_beq, Option-cases, Bool-cases, ℕ, Bool, true, false,
  Option, none, some, List, [], ◌∷◌, String, ◌≡◌,
}
use clianywhere_daemon.Protocol.{Bytes}
use clianywhere_daemon.Proxy.Tracking.{
  remove_conn-IsTracked, register-IsTracked, empty_pool-IsTracked, IsTracked,
}
use clianywhere_daemon.Proxy.Closing.{close_all_lem}
use clianywhere_daemon.Proxy.{
  handle_ws_close, ProxyConn, close_all_conns, handle_ws_message, new_proxy_manager, read_ws,
  lookup, handle_ws_connect, handle_connect, remove_tcp, remove_ws, handle_close, read_tcp,
  handle_data, ProxyManager, ProxyRun,
}

pub data ProxyEvent : Type 0 where
  -- the id as text and as number, and the error of the dial
  connects : String → ℕ → Option String → ProxyEvent
  -- the app's data for an id, and whether the write fails
  sends : ℕ → Bytes → Bool → ProxyEvent
  closes : ℕ → ProxyEvent
  -- a round of the read loop at a place
  reads : String → ℕ → Bool → Bytes → Bool → ProxyEvent
  connects_ws : String → Option String → ProxyEvent
  sends_ws : String → Option Bytes → Bool → ProxyEvent
  closes_ws : String → ProxyEvent
  reads_ws : ℕ → Bool → Option (Bytes × Bool) → ProxyEvent
  closes_all : ProxyEvent

unfoldable pub proxy_step : ProxyEvent → ProxyManager → ProxyRun
proxy_step (connects text id dial_error) p = handle_connect text id dial_error p
proxy_step (sends id b fails) p = handle_data id b fails p
proxy_step (closes id) p = handle_close id p
proxy_step (reads text place waiting b failed) p = read_tcp text place waiting b failed p
proxy_step (connects_ws id dial_error) p = handle_ws_connect id dial_error p
proxy_step (sends_ws id decoded fails) p = handle_ws_message id decoded fails p
proxy_step (closes_ws id) p = handle_ws_close id p
proxy_step (reads_ws place waiting received) p = read_ws place waiting received p
proxy_step closes_all p = (close_all_conns p, [])

unfoldable pub proxy_run : List ProxyEvent → ProxyManager → ProxyManager
proxy_run [] p = p
proxy_run (v ∷ vs) p = proxy_run vs (proxy_step v p).0

-- A connection is made under an id that the table does not have.
abbrev pub IsFresh : ProxyEvent → ProxyManager → Type 0
IsFresh (connects text id dial_error) p = lookup id p.tcp.conns ≡ none
IsFresh (sends id b fails) p = Unit
IsFresh (closes id) p = Unit
IsFresh (reads text place waiting b failed) p = Unit
IsFresh (connects_ws id dial_error) p = lookup id p.ws.conns ≡ none
IsFresh (sends_ws id decoded fails) p = Unit
IsFresh (closes_ws id) p = Unit
IsFresh (reads_ws place waiting received) p = Unit
IsFresh closes_all p = Unit

abbrev pub AllFresh : List ProxyEvent → ProxyManager → Type 0
AllFresh [] p = Unit
AllFresh (v ∷ vs) p = IsFresh v p × AllFresh vs (proxy_step v p).0

abbrev pub Tracked : ProxyManager → Type 0
Tracked p = IsTracked p.tcp × IsTracked p.ws

module _ (p : ProxyManager) (h : Tracked p) where
  remove_tcp-Tracked : (id : ℕ) → Tracked (remove_tcp id p)
  unfolding remove_tcp
  remove_tcp-Tracked id = (remove_conn-IsTracked p.tcp h.0 id, h.1)

  remove_ws-Tracked : (id : String) → Tracked (remove_ws id p)
  unfolding remove_ws
  remove_ws-Tracked id = (h.0, remove_conn-IsTracked p.ws h.1 id)

  handle_connect-Tracked :
      (text : String) (id : ℕ) (dial_error : Option String)
      → lookup id p.tcp.conns ≡ none
      → Tracked (handle_connect text id dial_error p).0
  unfolding handle_connect
  handle_connect-Tracked text id none fresh = elim (Bool-cases (nat_beq id 0)) [
    | inl z ↦ rw z h
    | inr n ↦ rw n (register-IsTracked p.tcp h.0 id fresh, h.1)
  ]
  handle_connect-Tracked text id (some e) fresh = elim (Bool-cases (nat_beq id 0)) [
    | inl z ↦ rw z h
    | inr n ↦ rw n h
  ]

  read_tcp-Tracked :
      (text : String) (place : ℕ) (waiting : Bool) (b : Bytes) (failed : Bool)
      → Tracked (read_tcp text place waiting b failed p).0
  unfolding read_tcp
  read_tcp-Tracked text place waiting b failed = elim (Option-cases (lookup place p.tcp.store)) [
    | inl e ↦ rw (e, read_tcp) h
    | inr (c, e) ↦ elim (Bool-cases (c.closed && not waiting)) [
      | inl t ↦ rw (e, read_tcp) (rw t (remove_tcp-Tracked c.key))
      | inr f ↦ elim (Bool-cases failed) [
        | inl x ↦ rw (e, read_tcp) (rw (f, x) (remove_tcp-Tracked c.key))
        | inr y ↦ rw (e, read_tcp) (rw (f, y) h)
      ]
    ]
  ]

  handle_data-Tracked : (id : ℕ) (b : Bytes) (fails : Bool) → Tracked (handle_data id b fails p).0
  unfolding handle_data
  handle_data-Tracked id b fails = elim (Option-cases (lookup id p.tcp.conns)) [
    | inl e ↦ rw (e, handle_data) h
    | inr (place, e) ↦ elim (Bool-cases fails) [
      | inl t ↦ rw (e, handle_data) (rw t (remove_tcp-Tracked id))
      | inr f ↦ rw (e, handle_data) (rw f h)
    ]
  ]

  handle_ws_connect-Tracked :
      (id : String) (dial_error : Option String)
      → lookup id p.ws.conns ≡ none
      → Tracked (handle_ws_connect id dial_error p).0
  unfolding handle_ws_connect
  handle_ws_connect-Tracked id none fresh = (h.0, register-IsTracked p.ws h.1 id fresh)
  handle_ws_connect-Tracked id (some e) fresh = h

  read_ws-Tracked :
      (place : ℕ) (waiting : Bool) (received : Option (Bytes × Bool))
      → Tracked (read_ws place waiting received p).0
  unfolding read_ws
  read_ws-Tracked place waiting none = elim (Option-cases (lookup place p.ws.store)) [
    | inl e ↦ rw (e, read_ws) h
    | inr (c, e) ↦ elim (Bool-cases (c.closed && not waiting)) [
      | inl t ↦ rw (e, read_ws) (rw t (remove_ws-Tracked c.key))
      | inr f ↦ rw (e, read_ws) (rw f (remove_ws-Tracked c.key))
    ]
  ]
  read_ws-Tracked place waiting (some (encoded, binary)) =
      elim (Option-cases (lookup place p.ws.store)) [
        | inl e ↦ rw (e, read_ws) h
        | inr (c, e) ↦ elim (Bool-cases (c.closed && not waiting)) [
          | inl t ↦ rw (e, read_ws) (rw t (remove_ws-Tracked c.key))
          | inr f ↦ rw (e, read_ws) (rw f h)
        ]
      ]

  handle_ws_message-Tracked :
      (id : String) (decoded : Option Bytes) (fails : Bool)
      → Tracked (handle_ws_message id decoded fails p).0
  unfolding handle_ws_message
  handle_ws_message-Tracked id none fails = elim (Option-cases (lookup id p.ws.conns)) [
    | inl e ↦ rw (e, handle_ws_message) h
    | inr (place, e) ↦ rw (e, handle_ws_message) h
  ]
  handle_ws_message-Tracked id (some b) true = elim (Option-cases (lookup id p.ws.conns)) [
    | inl e ↦ rw (e, handle_ws_message) h
    | inr (place, e) ↦ rw (e, handle_ws_message) (remove_ws-Tracked id)
  ]
  handle_ws_message-Tracked id (some b) false = elim (Option-cases (lookup id p.ws.conns)) [
    | inl e ↦ rw (e, handle_ws_message) h
    | inr (place, e) ↦ rw (e, handle_ws_message) h
  ]

  proxy_step-Tracked : (v : ProxyEvent) → IsFresh v p → Tracked (proxy_step v p).0
  unfolding proxy_step handle_close handle_ws_close close_all_conns
  proxy_step-Tracked (connects text id dial_error) fresh =
      handle_connect-Tracked text id dial_error fresh
  proxy_step-Tracked (sends id b fails) fresh = handle_data-Tracked id b fails
  proxy_step-Tracked (closes id) fresh = remove_tcp-Tracked id
  proxy_step-Tracked (reads text place waiting b failed) fresh =
      read_tcp-Tracked text place waiting b failed
  proxy_step-Tracked (connects_ws id dial_error) fresh =
      handle_ws_connect-Tracked id dial_error fresh
  proxy_step-Tracked (sends_ws id decoded fails) fresh = handle_ws_message-Tracked id decoded fails
  proxy_step-Tracked (closes_ws id) fresh = remove_ws-Tracked id
  proxy_step-Tracked (reads_ws place waiting received) fresh =
      read_ws-Tracked place waiting received
  proxy_step-Tracked closes_all fresh = ((close_all_lem p.tcp h.0).0, (close_all_lem p.ws h.1).0)

run-Tracked :
    (vs : List ProxyEvent) (p : ProxyManager) → Tracked p → AllFresh vs p → Tracked (proxy_run vs p)
unfolding proxy_run
run-Tracked [] p h f = h
run-Tracked (v ∷ vs) p h f = run-Tracked vs (proxy_step v p).0 (proxy_step-Tracked p h v f.0) f.1

-- After any sequence of the handlers, as long as each connection is asked for under an id that its
-- table does not have, a TCP or WebSocket connection is open exactly while the table holds it: what
-- the table has under an id is open and has that id, and what is open is in the table.
pub proxy_run-IsTracked :
    (vs : List ProxyEvent)
    → AllFresh vs new_proxy_manager
    → IsTracked (proxy_run vs new_proxy_manager).tcp × IsTracked (proxy_run vs new_proxy_manager).ws
unfolding new_proxy_manager
proxy_run-IsTracked vs f =
    run-Tracked vs new_proxy_manager (empty_pool-IsTracked, empty_pool-IsTracked) f

-- After such a sequence, CloseAll leaves no connection open, of those ever made.
pub close_all_conns-proxy_run :
    (vs : List ProxyEvent)
    → AllFresh vs new_proxy_manager
    → ((place : ℕ) (c : ProxyConn ℕ)
        → lookup place (close_all_conns (proxy_run vs new_proxy_manager)).tcp.store ≡ some c
        → c.closed ≡ true)
      × ((place : ℕ) (c : ProxyConn String)
          → lookup place (close_all_conns (proxy_run vs new_proxy_manager)).ws.store ≡ some c
          → c.closed ≡ true)
unfolding close_all_conns
close_all_conns-proxy_run vs f =
    let (tcp, ws) = proxy_run-IsTracked vs f in
    (
      (close_all_lem (proxy_run vs new_proxy_manager).tcp tcp).1,
      (close_all_lem (proxy_run vs new_proxy_manager).ws ws).1,
    )
