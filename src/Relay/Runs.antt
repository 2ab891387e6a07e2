-- ===== src/Relay/Runs.antt =====
-- cmd/claw/wsrelay.go: texts overtake the binary messages that wait.
use clianywhere_daemon.Prelude.{
  sym, ◌∙◌, Bool-cases, inl, inr, not, ◌&&◌, if◌then◌else◌, ap, ℕ, suc, ◌+◌, ◌≤◌, ◌≡◌, ◌≢◌, Bool,
  false, List, [], ◌∷◌, ◌++◌, refl, arith,
}
use clianywhere_daemon.Protocol.{Bytes}
use clianywhere_daemon.Relay.{
  write_msg, write_text, write_binary, enqueues, ping, write_select, pong, send_binary, send_raw,
  relay_close, WsTurnRelay, Loop, first_select, second_select, returned, Pick, pick_close,
  pick_text, pick_binary, Written, text, binary, Sent, accepted, refused, blocked,
}

pub data RelayEvent : Type 0 where
  sends_raw sends_binary : Bool → Bytes → RelayEvent
  writes : Pick → Bool → RelayEvent
  pings : Bool → RelayEvent
  pongs closes : RelayEvent

unfoldable pub relay_step : RelayEvent → WsTurnRelay → WsTurnRelay × List Written
relay_step (sends_raw c b) w = ((send_raw c b w).0, [])
relay_step (sends_binary c b) w = ((send_binary c b w).0, [])
relay_step (writes pick fails) w = write_select w.loop pick fails w
relay_step (pings c) w = (ping c w, [])
relay_step pongs w = (pong w, [])
relay_step closes w = (relay_close w, [])

unfoldable pub relay_run : List RelayEvent → WsTurnRelay → WsTurnRelay × List Written
relay_run [] w = (w, [])
relay_run (v ∷ vs) w =
    let first = relay_step v w in let rest = relay_run vs first.0 in (rest.0, first.1 ++ rest.1)

-- How many binary messages are taken for writing before the first text is.
abbrev pub lead : List Written → ℕ
lead [] = 0
lead (text done b ∷ es) = 0
lead (binary done b ∷ es) = suc (lead es)

-- A binary message can still be picked before a text that waits.
abbrev pub allowed : Loop → ℕ
allowed first_select = 0
allowed second_select = 1
allowed returned = 0

-- What a step of a relay with a text waiting leaves for the steps after it.
abbrev Waits : Loop → WsTurnRelay × List Written → Type 0
Waits l (w, []) = (w.send_ch ≢ []) × (allowed w.loop ≤ allowed l)
Waits l (w, text done b ∷ es) = Unit
Waits l (w, binary done b ∷ es) = (es ≡ []) × (w.send_ch ≢ []) × (1 + allowed w.loop ≤ allowed l)

snoc_ne : (q : List Bytes) (b : Bytes) → q ++ b ∷ [] ≢ []
snoc_ne [] b e = cc
snoc_ne (x ∷ q) b e = cc

-- writeMsg leaves the queues and the loop, and a failed write closes.
pub write_msg_same :
    (fails : Bool) (w : WsTurnRelay)
    → ((write_msg fails w).0.send_ch ≡ w.send_ch) × ((write_msg fails w).0.loop ≡ w.loop)
unfolding write_msg relay_close
write_msg_same fails w = ground arith

module _ (w : WsTurnRelay) (h : w.send_ch ≢ []) where
  abbrev Keeps : WsTurnRelay → Type 0
  Keeps w' = (w'.send_ch ≢ []) × (allowed w'.loop ≤ allowed w.loop)

  send_raw-Keeps : (c : Bool) (b : Bytes) → Keeps (send_raw c b w).0
  unfolding send_raw
  send_raw-Keeps c b = elim (Bool-cases (not (w.conn && w.connected))) [
    | inl off ↦ rw off (h, omega arith)
    | inr on ↦ put (enqueues w.closed w.send_ch c) refl on
  ]
    where
      put :
          (o : Sent)
          → enqueues w.closed w.send_ch c ≡ o
          → not (w.conn && w.connected) ≡ false
          → Keeps (send_raw c b w).0
      put accepted e on = rw (on, e, send_raw) (snoc_ne w.send_ch b, omega arith)
      put refused e on = rw (on, e, send_raw) (h, omega arith)
      put blocked e on = rw (on, e, send_raw) (h, omega arith)

  send_binary-Keeps : (c : Bool) (b : Bytes) → Keeps (send_binary c b w).0
  unfolding send_binary
  send_binary-Keeps c b = elim (Bool-cases (not w.connected)) [
    | inl off ↦ rw off (h, omega arith)
    | inr on ↦ put (enqueues w.closed w.binary_ch c) refl on
  ]
    where
      put :
          (o : Sent)
          → enqueues w.closed w.binary_ch c ≡ o
          → not w.connected ≡ false
          → Keeps (send_binary c b w).0
      put accepted e on = rw (on, e, send_binary) (h, omega arith)
      put refused e on = rw (on, e, send_binary) (h, omega arith)
      put blocked e on = rw (on, e, send_binary) (h, omega arith)

  text-Waits :
      (l other : Loop) (fails : Bool) (q : List Bytes)
      → q ≢ []
      → Waits l (write_text other fails q w)
  unfolding write_text
  text-Waits l other fails [] n = absurd (n refl)
  text-Waits l other fails (b ∷ rest) n = tt

  binary-Waits :
      (fails : Bool) (q : List Bytes)
      → w.loop ≡ second_select
      → Waits second_select (write_binary fails q w)
  unfolding write_binary
  binary-Waits fails [] e = (h, omega (arith, ap allowed e))
  binary-Waits fails (b ∷ rest) e =
      let (queue, loop) =
        write_msg_same fails (record w { binary_ch = rest; loop = first_select }) in
      (refl, λ none_left. h (sym queue ∙ none_left), omega (arith, ap allowed loop))

  close-Waits :
      (l : Loop) → w.loop ≡ l → Waits l (if w.closed then record w { loop = returned } else w, [])
  close-Waits l e = elim (Bool-cases w.closed) [
    | inl shut ↦ rw shut (h, omega arith)
    | inr still ↦ rw still (h, omega (arith, ap allowed e))
  ]

  select-Waits :
      (l : Loop) (pick : Pick) (fails : Bool) → w.loop ≡ l → Waits l (write_select l pick fails w)
  unfolding write_select
  select-Waits returned pick fails e = (h, omega (arith, ap allowed e))
  select-Waits first_select pick_close fails e = close-Waits first_select e
  select-Waits first_select pick_text fails e =
      text-Waits first_select (if w.closed then first_select else second_select) fails w.send_ch h
  select-Waits first_select pick_binary fails e = (h, omega (arith, ap allowed e))
  select-Waits second_select pick_close fails e = close-Waits second_select e
  select-Waits second_select pick_text fails e =
      text-Waits second_select second_select fails w.send_ch h
  select-Waits second_select pick_binary fails e = binary-Waits fails w.binary_ch e

  step-Waits : (v : RelayEvent) → Waits w.loop (relay_step v w)
  unfolding relay_step relay_close pong ping
  step-Waits (sends_raw c b) = send_raw-Keeps c b
  step-Waits (sends_binary c b) = send_binary-Keeps c b
  step-Waits (writes pick fails) = select-Waits w.loop pick fails refl
  step-Waits (pings c) = ground (arith, h)
  step-Waits pongs = (h, omega arith)
  step-Waits closes = (h, omega arith)

run_lead :
    (vs : List RelayEvent) (w : WsTurnRelay)
    → w.send_ch ≢ []
    → lead (relay_run vs w).1 ≤ allowed w.loop
unfolding relay_run
run_lead [] w h = omega arith
run_lead (v ∷ vs) w h = led (relay_step v w) (step-Waits w h v) (run_lead vs (relay_step v w).0)
  where
    led :
        (r : WsTurnRelay × List Written)
        → Waits w.loop r
        → (r.0.send_ch ≢ [] → lead (relay_run vs r.0).1 ≤ allowed r.0.loop)
        → lead (r.1 ++ (relay_run vs r.0).1) ≤ allowed w.loop
    led (w', []) k rest = omega (arith, rest k.0, k.1)
    led (w', text done b ∷ es) k rest = omega arith
    led (w', binary done b ∷ []) k rest = omega (arith, rest k.1, k.2)
    led (w', binary done b ∷ (x ∷ es)) k rest = absurd (cc k.0)

allowed_le : (l : Loop) → allowed l ≤ 1
allowed_le first_select = omega arith
allowed_le second_select = omega arith
allowed_le returned = omega arith

-- While a text waits in sendCh, and whatever is sent, picked, closed or pinged, at most one binary
-- message is taken for writing before the next text is.
pub lead-relay_run :
    (vs : List RelayEvent) (w : WsTurnRelay) → w.send_ch ≢ [] → lead (relay_run vs w).1 ≤ 1
lead-relay_run vs w h = omega (arith, run_lead vs w h, allowed_le w.loop)
