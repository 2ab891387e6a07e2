-- ===== src/Rtc/Split.antt =====
-- cmd/claw/webrtc.go: which frames go to which DataChannel.
use clianywhere_daemon.Prelude.{
  ◌⊎◌, if◌then◌else◌, arith, if-holds, not, Option, none, some, ◌&&◌, Bool-cases, inl, inr, ◌≡◌,
  refl, true, List, [], ◌∷◌, All, All-append,
}
use clianywhere_daemon.Protocol.{Bytes}
use clianywhere_daemon.Rtc.{
  Target, rtc_send_json, flush_pending, set_file_open, frame_on, close_terminal, terminal_target,
  binary_target, open_terminal, send_bytes, announce, terminal_text, terminal_frame, file_frame,
  terminal, file, frame_routes_to_file, WebRtcConn, RtcEffect, RtcRun,
}
use clianywhere_daemon.Rtc.Frames.{unrouted-IsFileFrame, IsFileFrame, routed-IsFileFrame}
use clianywhere_daemon.Rtc.Order.{
  sends_text, sends_frame, announces, terminal_opens, terminal_closes, flushes, file_turns,
  RtcEvent, rtc_step, rtc_run,
}

-- What is sent, with file chunks, encrypted or not, on the file channel and all else on the terminal
-- channel.
abbrev pub IsSplit : RtcEffect → Type 0
IsSplit (terminal_text text) = Unit
IsSplit (terminal_frame b) = ¬ IsFileFrame b
IsSplit (file_frame b) = IsFileFrame b

abbrev Splits : RtcRun → Type 0
Splits r = (r.0.file_dc ≡ true) × All IsSplit r.1

-- A frame is sent on its channel if that is open, and else not at all.
abbrev pub IsPlaced : Bytes → WebRtcConn → Type 0
IsPlaced b w =
    (IsFileFrame b × (send_bytes b w ≡ (w, if w.file_connected then file_frame b ∷ [] else [])))
    ⊎ ((¬ IsFileFrame b)
        × (send_bytes b w ≡ (w, if w.dc && w.term_connected then terminal_frame b ∷ [] else [])))

send_bytes-IsPlaced : (b : Bytes) (w : WebRtcConn) → w.file_dc ≡ true → IsPlaced b w
unfolding send_bytes binary_target terminal_target frame_on
send_bytes-IsPlaced b w h = elim (Bool-cases (frame_routes_to_file b)) [
  | inl r ↦ inl (routed-IsFileFrame b r, ground (arith, h))
  | inr r ↦ inr (unrouted-IsFileFrame b r, ground (arith, h))
]

-- What a frame's channel is.
abbrev Suits : Bytes → Option Target → Type 0
Suits b none = Unit
Suits b (some terminal) = ¬ IsFileFrame b
Suits b (some file) = IsFileFrame b

terminal_target-Suits : (b : Bytes) (w : WebRtcConn) → ¬ IsFileFrame b → Suits b (terminal_target w)
unfolding terminal_target
terminal_target-Suits b w r = if-holds (Suits b) (w.dc && w.term_connected) (λ up. r) (λ down. tt)

binary_target-Suits : (b : Bytes) (w : WebRtcConn) → w.file_dc ≡ true → Suits b (binary_target b w)
unfolding binary_target
binary_target-Suits b w h =
    if-holds (Suits b) (frame_routes_to_file b)
      (λ r.
        if-holds (Suits b) (not w.file_dc) (λ no. absurd (cc (no, h)))
          (λ yes. if-holds (Suits b) w.file_connected (λ up. routed-IsFileFrame b r) (λ down. tt)))
      (λ r. terminal_target-Suits b w (unrouted-IsFileFrame b r))

send_bytes-Splits : (b : Bytes) (w : WebRtcConn) → w.file_dc ≡ true → Splits (send_bytes b w)
unfolding send_bytes frame_on
send_bytes-Splits b w h = sent (binary_target b w) refl (binary_target-Suits b w h)
  where
    sent : (o : Option Target) → binary_target b w ≡ o → Suits b o → Splits (send_bytes b w)
    sent none e s = rw (e, send_bytes) (h, tt)
    sent (some terminal) e s = rw (e, send_bytes) (h, (s, tt))
    sent (some file) e s = rw (e, send_bytes) (h, (s, tt))

step-Splits : (v : RtcEvent) (w : WebRtcConn) → w.file_dc ≡ true → Splits (rtc_step v w)
unfolding rtc_step announce open_terminal close_terminal set_file_open flush_pending rtc_send_json
step-Splits (sends_text text) w h = elim (Bool-cases (w.dc && w.term_connected)) [
  | inl up ↦ rw up (h, (tt, tt))
  | inr down ↦ rw down (h, tt)
]
step-Splits (announces terminal) w h = (h, tt)
step-Splits (announces file) w h = (refl, tt)
step-Splits terminal_opens w h = (h, tt)
step-Splits flushes w h = flush w.flushing refl
  where
    flush : (l : List Bytes) → w.flushing ≡ l → Splits (flush_pending w)
    flush [] e = rw (e, flush_pending) (h, tt)
    flush (text ∷ rest) e = rw (e, flush_pending) (h, (tt, tt))
step-Splits terminal_closes w h = (h, tt)
step-Splits (file_turns b) w h = (h, tt)
step-Splits (sends_frame b) w h = send_bytes-Splits b w h

run-Splits : (vs : List RtcEvent) (w : WebRtcConn) → w.file_dc ≡ true → Splits (rtc_run vs w)
unfolding rtc_run
run-Splits [] w h = (h, tt)
run-Splits (v ∷ vs) w h =
    let (there, first) = step-Splits v w h in
    let (still, rest) = run-Splits vs (rtc_step v w).0 there in
    (still, All-append IsSplit (rtc_step v w).1 (rtc_run vs (rtc_step v w).0).1 first rest)

-- Once the app has announced a file channel, whatever opens and closes: no file chunk, encrypted or
-- not, is ever sent on the terminal channel, and no other frame on the file channel; and a frame that
-- is given to SendBytes then is sent on its channel if that is open, and else not at all.
pub rtc_run-IsSplit :
    (vs : List RtcEvent) (w : WebRtcConn)
    → w.file_dc ≡ true
    → All IsSplit (rtc_run vs w).1 × ((b : Bytes) → IsPlaced b (rtc_run vs w).0)
rtc_run-IsSplit vs w h =
    let (there, split) = run-Splits vs w h in
    (split, λ b. send_bytes-IsPlaced b (rtc_run vs w).0 there)
