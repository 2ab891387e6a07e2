-- ===== src/Relay/Order.antt =====
-- cmd/claw/wsrelay.go: the texts that sendCh takes are written in their order.
use clianywhere_daemon.Prelude.{
  true, false, Bool-cases, inl, inr, not, ◌&&◌, if◌then◌else◌, ap, sym, ◌∙◌, append-nil,
  append_assoc, ◌≡◌, Bool, false, List, [], ◌∷◌, ◌++◌, refl, arith,
}
use clianywhere_daemon.Protocol.{Bytes}
use clianywhere_daemon.Relay.{
  enqueues, pong, ping, write_binary, relay_close, write_select, send_raw, write_text, send_binary,
  WsTurnRelay, Loop, first_select, second_select, returned, Pick, pick_close, pick_text,
  pick_binary, Written, text, binary, Sent, accepted, refused, blocked,
}
use clianywhere_daemon.Relay.Runs.{
  write_msg_same, RelayEvent, sends_raw, sends_binary, writes, pings, pongs, closes, relay_step,
  relay_run,
}

-- The texts that writeMsg took, and those of them that it wrote.
abbrev pub texts_dequeued : List Written → List Bytes
texts_dequeued [] = []
texts_dequeued (text done b ∷ es) = b ∷ texts_dequeued es
texts_dequeued (binary done b ∷ es) = texts_dequeued es

abbrev pub texts_written : List Written → List Bytes
texts_written [] = []
texts_written (text true b ∷ es) = b ∷ texts_written es
texts_written (text false b ∷ es) = texts_written es
texts_written (binary done b ∷ es) = texts_written es

abbrev if_accepted : Sent → Bytes → List Bytes
if_accepted accepted b = b ∷ []
if_accepted refused b = []
if_accepted blocked b = []

-- The text that a step puts into sendCh.
abbrev pub taken : RelayEvent → WsTurnRelay → List Bytes
taken (sends_raw c b) w = if_accepted (send_raw c b w).1 b
taken (sends_binary c b) w = []
taken (writes pick fails) w = []
taken (pings c) w = []
taken pongs w = []
taken closes w = []

abbrev pub all_taken : List RelayEvent → WsTurnRelay → List Bytes
all_taken [] w = []
all_taken (v ∷ vs) w = taken v w ++ all_taken vs (relay_step v w).0

abbrev pub Moves : List Bytes → List Bytes → WsTurnRelay × List Written → Type 0
Moves q new r = texts_dequeued r.1 ++ r.0.send_ch ≡ q ++ new

texts_dequeued-append :
    (es fs : List Written) → texts_dequeued (es ++ fs) ≡ texts_dequeued es ++ texts_dequeued fs
texts_dequeued-append [] fs = refl
texts_dequeued-append (text done b ∷ es) fs = ap (◌∷◌ b) (texts_dequeued-append es fs)
texts_dequeued-append (binary done b ∷ es) fs = texts_dequeued-append es fs

module _ (w : WsTurnRelay) where
  same : (w' : WsTurnRelay) → w'.send_ch ≡ w.send_ch → Moves w.send_ch [] (w', [])
  same w' e = e ∙ sym (append-nil w.send_ch)

  send_raw-Moves :
      (c : Bool) (b : Bytes)
      → Moves w.send_ch (if_accepted (send_raw c b w).1 b) ((send_raw c b w).0, [])
  unfolding send_raw
  send_raw-Moves c b = elim (Bool-cases (not (w.conn && w.connected))) [
    | inl off ↦ rw off (same w refl)
    | inr on ↦ put (enqueues w.closed w.send_ch c) refl on
  ]
    where
      put :
          (o : Sent)
          → enqueues w.closed w.send_ch c ≡ o
          → not (w.conn && w.connected) ≡ false
          → Moves w.send_ch (if_accepted (send_raw c b w).1 b) ((send_raw c b w).0, [])
      put accepted e on = rw (on, e, send_raw) refl
      put refused e on = rw (on, e, send_raw) (same w refl)
      put blocked e on = rw (on, e, send_raw) (same w refl)

  send_binary-Moves : (c : Bool) (b : Bytes) → Moves w.send_ch [] ((send_binary c b w).0, [])
  unfolding send_binary
  send_binary-Moves c b = elim (Bool-cases (not w.connected)) [
    | inl off ↦ rw off (same w refl)
    | inr on ↦ put (enqueues w.closed w.binary_ch c) refl on
  ]
    where
      put :
          (o : Sent)
          → enqueues w.closed w.binary_ch c ≡ o
          → not w.connected ≡ false
          → Moves w.send_ch [] ((send_binary c b w).0, [])
      put accepted e on = rw (on, e, send_binary) (same w refl)
      put refused e on = rw (on, e, send_binary) (same w refl)
      put blocked e on = rw (on, e, send_binary) (same w refl)

  text-Moves :
      (other : Loop) (fails : Bool) (q : List Bytes)
      → w.send_ch ≡ q
      → Moves q [] (write_text other fails q w)
  unfolding write_text
  text-Moves other fails [] e = e
  text-Moves other fails (b ∷ rest) e = ap (◌∷◌ b) (
      (write_msg_same fails (record w { send_ch = rest; loop = first_select })).0
      ∙ sym (append-nil rest))

  binary-Moves : (fails : Bool) (q : List Bytes) → Moves w.send_ch [] (write_binary fails q w)
  unfolding write_binary
  binary-Moves fails [] = same w refl
  binary-Moves fails (b ∷ rest) =
      (write_msg_same fails (record w { binary_ch = rest; loop = first_select })).0
      ∙ sym (append-nil w.send_ch)

  close-Moves : Moves w.send_ch [] (if w.closed then record w { loop = returned } else w, [])
  close-Moves = elim (Bool-cases w.closed) [
    | inl shut ↦ rw shut (same w refl)
    | inr still ↦ rw still (same w refl)
  ]

  select-Moves :
      (l : Loop) (pick : Pick) (fails : Bool) → Moves w.send_ch [] (write_select l pick fails w)
  unfolding write_select
  select-Moves returned pick fails = same w refl
  select-Moves first_select pick_close fails = close-Moves
  select-Moves first_select pick_text fails =
      text-Moves (if w.closed then first_select else second_select) fails w.send_ch refl
  select-Moves first_select pick_binary fails = same w refl
  select-Moves second_select pick_close fails = close-Moves
  select-Moves second_select pick_text fails = text-Moves second_select fails w.send_ch refl
  select-Moves second_select pick_binary fails = binary-Moves fails w.binary_ch

  ping-same : (c : Bool) → (ping c w).send_ch ≡ w.send_ch
  unfolding ping
  ping-same c = ground arith

  step-Moves : (v : RelayEvent) → Moves w.send_ch (taken v w) (relay_step v w)
  unfolding relay_step relay_close pong
  step-Moves (sends_raw c b) = send_raw-Moves c b
  step-Moves (sends_binary c b) = send_binary-Moves c b
  step-Moves (writes pick fails) = select-Moves w.loop pick fails
  step-Moves (pings c) = same (ping c w) (ping-same c)
  step-Moves pongs = same (pong w) refl
  step-Moves closes = same (relay_close w) refl

pub run-Moves :
    (vs : List RelayEvent) (w : WsTurnRelay) → Moves w.send_ch (all_taken vs w) (relay_run vs w)
unfolding relay_run
run-Moves [] w = sym (append-nil w.send_ch)
run-Moves (v ∷ vs) w =
    let r = relay_step v w in
    ap (λ (l : List Bytes). l ++ (relay_run vs r.0).0.send_ch)
      (texts_dequeued-append r.1 (relay_run vs r.0).1)
    ∙ append_assoc (texts_dequeued r.1) (texts_dequeued (relay_run vs r.0).1)
        (relay_run vs r.0).0.send_ch
    ∙ ap (λ (l : List Bytes). texts_dequeued r.1 ++ l) (run-Moves vs r.0)
    ∙ sym (append_assoc (texts_dequeued r.1) r.0.send_ch (all_taken vs r.0))
    ∙ ap (λ (l : List Bytes). l ++ all_taken vs r.0) (step-Moves w v)
    ∙ append_assoc w.send_ch (taken v w) (all_taken vs r.0)
