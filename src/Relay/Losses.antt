-- ===== src/Relay/Losses.antt =====
-- cmd/claw/wsrelay.go: a text is lost only where the connection closes.
use clianywhere_daemon.Prelude.{
  inl, inr, ◌⊎◌, if◌then◌else◌, ap, ◌≡◌, Bool, true, false, List, [], ◌∷◌, ◌++◌, refl, arith, ◌∙◌,
}
use clianywhere_daemon.Protocol.{Bytes}
use clianywhere_daemon.Relay.{
  pong, enqueues, ping, relay_close, write_msg, write_select, send_binary, write_binary, send_raw,
  write_text, WsTurnRelay, Loop, first_select, second_select, returned, Pick, pick_close, pick_text,
  pick_binary, Written, text, binary,
}
use clianywhere_daemon.Relay.Runs.{
  RelayEvent, sends_raw, sends_binary, writes, pings, pongs, closes, relay_step, relay_run,
}
use clianywhere_daemon.Relay.Order.{texts_dequeued, texts_written, all_taken, run-Moves}

-- Every message is written.
abbrev AllDone : List Written → Type 0
AllDone [] = Unit
AllDone (text done b ∷ es) = (done ≡ true) × AllDone es
AllDone (binary done b ∷ es) = (done ≡ true) × AllDone es

AllDone-append : (es fs : List Written) → AllDone es → AllDone fs → AllDone (es ++ fs)
AllDone-append [] fs h k = k
AllDone-append (text done b ∷ es) fs h k = (h.0, AllDone-append es fs h.1 k)
AllDone-append (binary done b ∷ es) fs h k = (h.0, AllDone-append es fs h.1 k)

AllDone-written : (es : List Written) → AllDone es → texts_written es ≡ texts_dequeued es
AllDone-written [] h = refl
AllDone-written (text true b ∷ es) h = ap (◌∷◌ b) (AllDone-written es h.1)
AllDone-written (text false b ∷ es) h = cc h.0
AllDone-written (binary done b ∷ es) h = AllDone-written es h.1

-- With a connection, a step keeps it, keeps a closed relay closed, and writes all or closes.
record IsSafe (w : WsTurnRelay) (r : WsTurnRelay × List Written) : Type 0 where
  conn : r.0.conn ≡ true
  closed : w.closed ≡ true → r.0.closed ≡ true
  done : AllDone r.1 ⊎ (r.0.closed ≡ true)

module _ (w : WsTurnRelay) (h : w.conn ≡ true) where
  calm : (w' : WsTurnRelay) → w'.conn ≡ w.conn → w'.closed ≡ w.closed → IsSafe w (w', [])
  calm w' c e = record { conn = c ∙ h; closed = λ k. e ∙ k; done = inl tt }

  write_msg_safe :
      (fails : Bool) (w' : WsTurnRelay)
      → w'.conn ≡ true
      → ((write_msg fails w').0.conn ≡ true)
        × (w'.closed ≡ true → (write_msg fails w').0.closed ≡ true)
        × (((write_msg fails w').1 ≡ true) ⊎ ((write_msg fails w').0.closed ≡ true))
  unfolding write_msg relay_close
  write_msg_safe true w' c =
      let broken : write_msg true w' ≡ (relay_close w', false) = ground (arith, c) in
      rw broken (c, λ k. refl, inr refl)
  write_msg_safe false w' c =
      let fine : write_msg false w' ≡ (w', true) = ground (arith, c) in
      rw fine (c, λ k. k, inl refl)

  text-IsSafe :
      (other : Loop) (fails : Bool) (q : List Bytes) → IsSafe w (write_text other fails q w)
  unfolding write_text
  text-IsSafe other fails [] = calm (record w { loop = other }) refl refl
  text-IsSafe other fails (b ∷ rest) =
      let (c, k, d) = write_msg_safe fails (record w { send_ch = rest; loop = first_select }) h in
      record {
        conn = c;
        closed = k;
        done = elim d [ inl yes_done ↦ inl (yes_done, tt) | inr shut ↦ inr shut ];
      }

  binary-IsSafe : (fails : Bool) (q : List Bytes) → IsSafe w (write_binary fails q w)
  unfolding write_binary
  binary-IsSafe fails [] = calm w refl refl
  binary-IsSafe fails (b ∷ rest) =
      let (c, k, d) = write_msg_safe fails (record w { binary_ch = rest; loop = first_select }) h in
      record {
        conn = c;
        closed = k;
        done = elim d [ inl yes_done ↦ inl (yes_done, tt) | inr shut ↦ inr shut ];
      }

  close-IsSafe : (b : Bool) → IsSafe w (if b then record w { loop = returned } else w, [])
  close-IsSafe true = calm (record w { loop = returned }) refl refl
  close-IsSafe false = calm w refl refl

  select-IsSafe : (l : Loop) (pick : Pick) (fails : Bool) → IsSafe w (write_select l pick fails w)
  unfolding write_select
  select-IsSafe returned pick fails = calm w refl refl
  select-IsSafe first_select pick_close fails = close-IsSafe w.closed
  select-IsSafe first_select pick_text fails =
      text-IsSafe (if w.closed then first_select else second_select) fails w.send_ch
  select-IsSafe first_select pick_binary fails = calm w refl refl
  select-IsSafe second_select pick_close fails = close-IsSafe w.closed
  select-IsSafe second_select pick_text fails = text-IsSafe second_select fails w.send_ch
  select-IsSafe second_select pick_binary fails = binary-IsSafe fails w.binary_ch

  ping_safe : (c : Bool) → ((ping c w).conn ≡ true) × (w.closed ≡ true → (ping c w).closed ≡ true)
  unfolding ping
  ping_safe c = ground (arith, h)

  send_raw_safe :
      (c : Bool) (b : Bytes)
      → ((send_raw c b w).0.conn ≡ w.conn) × ((send_raw c b w).0.closed ≡ w.closed)
  unfolding send_raw enqueues
  send_raw_safe c b = ground arith

  send_binary_safe :
      (c : Bool) (b : Bytes)
      → ((send_binary c b w).0.conn ≡ w.conn) × ((send_binary c b w).0.closed ≡ w.closed)
  unfolding send_binary enqueues
  send_binary_safe c b = ground arith

  step-IsSafe : (v : RelayEvent) → IsSafe w (relay_step v w)
  unfolding relay_step relay_close pong
  step-IsSafe (sends_raw c b) = let (x, y) = send_raw_safe c b in calm (send_raw c b w).0 x y
  step-IsSafe (sends_binary c b) =
      let (x, y) = send_binary_safe c b in calm (send_binary c b w).0 x y
  step-IsSafe (writes pick fails) = select-IsSafe w.loop pick fails
  step-IsSafe (pings c) = let (x, y) = ping_safe c in record { conn = x; closed = y; done = inl tt }
  step-IsSafe pongs = calm (pong w) refl refl
  step-IsSafe closes = record { conn = h; closed = λ k. refl; done = inl tt }

run-IsSafe : (vs : List RelayEvent) (w : WsTurnRelay) → w.conn ≡ true → IsSafe w (relay_run vs w)
unfolding relay_run
run-IsSafe [] w h = record { conn = h; closed = λ k. k; done = inl tt }
run-IsSafe (v ∷ vs) w h =
    let s = step-IsSafe w h v in
    let r = run-IsSafe vs (relay_step v w).0 s.conn in
    record {
      conn = r.conn;
      closed = λ k. r.closed (s.closed k);
      done = elim s.done [
        | inr shut ↦ inr (r.closed shut)
        | inl all_here ↦ elim r.done [
          | inr shut ↦ inr shut
          | inl all_after ↦ inl (
              AllDone-append (relay_step v w).1 (relay_run vs (relay_step v w).0).1 all_here
                all_after)
        ]
      ];
    }

-- Whatever is sent, picked, closed or pinged, on a relay with a connection: writeMsg takes the texts
-- that sendCh took, in their order and each once, and those that it has not taken are in sendCh; and
-- it writes each text that it takes, unless the relay is closed by the end.
pub texts_written-relay_run :
    (vs : List RelayEvent) (w : WsTurnRelay)
    → w.conn ≡ true
    → (texts_dequeued (relay_run vs w).1 ++ (relay_run vs w).0.send_ch
        ≡ w.send_ch ++ all_taken vs w)
      × ((texts_written (relay_run vs w).1 ≡ texts_dequeued (relay_run vs w).1)
          ⊎ ((relay_run vs w).0.closed ≡ true))
texts_written-relay_run vs w h = (
  run-Moves vs w,
  elim (run-IsSafe vs w h).done [
    | inl all_done ↦ inl (AllDone-written (relay_run vs w).1 all_done)
    | inr shut ↦ inr shut
  ],
)
