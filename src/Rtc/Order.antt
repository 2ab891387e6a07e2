-- ===== src/Rtc/Order.antt =====
-- cmd/claw/webrtc.go: sequences of the operations on a P2P connection.
use clianywhere_daemon.Prelude.{
  Bool-cases, inl, inr, Option-cases, Bool, true, ◌&&◌, List, [], ◌∷◌, ◌++◌, ◌≡◌, refl, sym, ap,
  ◌∙◌, append_assoc, append-nil, arith,
}
use clianywhere_daemon.Protocol.{Bytes}
use clianywhere_daemon.Rtc.{
  new_web_rtc_conn, binary_target, frame_on, terminal_text, terminal_frame, file_frame, terminal,
  file, send_bytes, rtc_send_json, set_file_open, close_terminal, flush_pending, open_terminal,
  announce, WebRtcConn, RtcEffect, RtcRun, Target,
}

pub data RtcEvent : Type 0 where
  announces : Target → RtcEvent
  terminal_opens flushes terminal_closes : RtcEvent
  file_turns : Bool → RtcEvent
  sends_text sends_frame : Bytes → RtcEvent

unfoldable pub rtc_step : RtcEvent → WebRtcConn → RtcRun
rtc_step (announces t) w = (announce t w, [])
rtc_step terminal_opens w = (open_terminal w, [])
rtc_step flushes w = flush_pending w
rtc_step terminal_closes w = (close_terminal w, [])
rtc_step (file_turns b) w = (set_file_open b w, [])
rtc_step (sends_text text) w = rtc_send_json text w
rtc_step (sends_frame b) w = send_bytes b w

unfoldable pub rtc_run : List RtcEvent → WebRtcConn → RtcRun
rtc_run [] w = (w, [])
rtc_run (v ∷ vs) w =
    let first = rtc_step v w in let rest = rtc_run vs first.0 in (rest.0, first.1 ++ rest.1)

-- The texts that the daemon gave to SendJSON, and the texts among the effects.
abbrev pub given : List RtcEvent → List Bytes
given [] = []
given (sends_text text ∷ vs) = text ∷ given vs
given (announces t ∷ vs) = given vs
given (terminal_opens ∷ vs) = given vs
given (flushes ∷ vs) = given vs
given (terminal_closes ∷ vs) = given vs
given (file_turns b ∷ vs) = given vs
given (sends_frame b ∷ vs) = given vs

abbrev pub texts : List RtcEffect → List Bytes
texts [] = []
texts (terminal_text text ∷ es) = text ∷ texts es
texts (terminal_frame b ∷ es) = texts es
texts (file_frame b ∷ es) = texts es

-- The terminal channel opens once it is there, and no text is given to SendJSON on an open channel
-- while a buffered text waits in OnOpen.
abbrev pub IsQuiet : RtcEvent → WebRtcConn → Type 0
IsQuiet (sends_text text) w = (w.dc && w.term_connected) ≡ true → w.flushing ≡ []
IsQuiet (announces t) w = Unit
IsQuiet terminal_opens w = w.dc ≡ true
IsQuiet flushes w = Unit
IsQuiet terminal_closes w = Unit
IsQuiet (file_turns b) w = Unit
IsQuiet (sends_frame b) w = Unit

abbrev pub AllQuiet : List RtcEvent → WebRtcConn → Type 0
AllQuiet [] w = Unit
AllQuiet (v ∷ vs) w = IsQuiet v w × AllQuiet vs (rtc_step v w).0

-- What has not been sent yet, in order.
abbrev pub waiting : WebRtcConn → List Bytes
waiting w = w.flushing ++ w.pending_msgs

abbrev pub Sound : WebRtcConn → Type 0
Sound w = w.term_connected ≡ true → (w.dc ≡ true) × (w.pending_msgs ≡ [])

texts-append : (es fs : List RtcEffect) → texts (es ++ fs) ≡ texts es ++ texts fs
texts-append [] fs = refl
texts-append (terminal_text text ∷ es) fs = ap (◌∷◌ text) (texts-append es fs)
texts-append (terminal_frame b ∷ es) fs = texts-append es fs
texts-append (file_frame b ∷ es) fs = texts-append es fs

given_cons : (v : RtcEvent) (vs : List RtcEvent) → given (v ∷ vs) ≡ given (v ∷ []) ++ given vs
given_cons (sends_text text) vs = refl
given_cons (announces t) vs = refl
given_cons terminal_opens vs = refl
given_cons flushes vs = refl
given_cons terminal_closes vs = refl
given_cons (file_turns b) vs = refl
given_cons (sends_frame b) vs = refl

-- The texts that a step sends, and the order that it keeps.
abbrev Keeps : WebRtcConn → List Bytes → RtcRun → Type 0
Keeps w new r = Sound r.0 × (texts r.1 ++ waiting r.0 ≡ waiting w ++ new)

stays : (w w' : WebRtcConn) → Sound w' → waiting w' ≡ waiting w → Keeps w [] (w', [])
stays w w' s e = (s, e ∙ sym (append-nil (waiting w)))

send_json-Keeps :
    (text : Bytes) (w : WebRtcConn)
    → Sound w
    → IsQuiet (sends_text text) w
    → Keeps w (text ∷ []) (rtc_send_json text w)
unfolding rtc_send_json
send_json-Keeps text w s quiet = elim (Bool-cases (w.dc && w.term_connected)) [
  | inl up ↦
      rw up (s, ap (◌∷◌ text) (empty up) ∙ sym (ap (λ (l : List Bytes). l ++ text ∷ []) (empty up)))
  | inr down ↦ rw down (
    λ up. absurd (cc (down, up, (s up).0)),
    sym (append_assoc w.flushing w.pending_msgs (text ∷ [])),
  )
]
  where
    empty : (w.dc && w.term_connected) ≡ true → waiting w ≡ []
    empty up = ap (λ (l : List Bytes). l ++ w.pending_msgs) (quiet up) ∙ (s (ground (arith, up))).1

flush-Keeps :
    (w : WebRtcConn) (l : List Bytes) → w.flushing ≡ l → Sound w → Keeps w [] (flush_pending w)
unfolding flush_pending
flush-Keeps w [] e s =
    rw (e, flush_pending)
      (s, ap (λ (l : List Bytes). l ++ w.pending_msgs) e ∙ sym (append-nil w.pending_msgs))
flush-Keeps w (text ∷ rest) e s =
    rw (e, flush_pending) (s, sym (append-nil (text ∷ (rest ++ w.pending_msgs))))

no_texts : (t : Target) (b : Bytes) → texts (frame_on t b ∷ []) ≡ []
unfolding frame_on
no_texts terminal b = refl
no_texts file b = refl

send_bytes-Keeps : (b : Bytes) (w : WebRtcConn) → Sound w → Keeps w [] (send_bytes b w)
unfolding send_bytes
send_bytes-Keeps b w s = elim (Option-cases (binary_target b w)) [
  | inl e ↦ rw (e, send_bytes) (stays w w s refl)
  | inr (t, e) ↦
      rw (e, send_bytes)
        (s, ap (λ (l : List Bytes). l ++ waiting w) (no_texts t b) ∙ sym (append-nil (waiting w)))
]

step-Keeps :
    (v : RtcEvent) (w : WebRtcConn)
    → Sound w
    → IsQuiet v w
    → Keeps w (given (v ∷ [])) (rtc_step v w)
unfolding rtc_step announce open_terminal close_terminal set_file_open
step-Keeps (sends_text text) w s quiet = send_json-Keeps text w s quiet
step-Keeps (announces terminal) w s quiet =
    stays w (announce terminal w) (λ up. (refl, (s up).1)) refl
step-Keeps (announces file) w s quiet = stays w (announce file w) s refl
step-Keeps terminal_opens w s quiet =
    stays w (open_terminal w) (λ up. (quiet, refl)) (append-nil (waiting w))
step-Keeps flushes w s quiet = flush-Keeps w w.flushing refl s
step-Keeps terminal_closes w s quiet = stays w (close_terminal w) (λ up. cc) refl
step-Keeps (file_turns b) w s quiet = stays w (set_file_open b w) s refl
step-Keeps (sends_frame b) w s quiet = send_bytes-Keeps b w s

run-Keeps :
    (vs : List RtcEvent) (w : WebRtcConn)
    → Sound w
    → AllQuiet vs w
    → Keeps w (given vs) (rtc_run vs w)
unfolding rtc_run
run-Keeps [] w s quiet = stays w w s refl
run-Keeps (v ∷ vs) w s quiet =
    let first = rtc_step v w in
    let (s', kept) = step-Keeps v w s quiet.0 in
    let (s'', rest) = run-Keeps vs first.0 s' quiet.1 in
    (
      s'',
      ap (λ (l : List Bytes). l ++ waiting (rtc_run vs first.0).0)
            (texts-append first.1 (rtc_run vs first.0).1)
          ∙ append_assoc (texts first.1) (texts (rtc_run vs first.0).1)
              (waiting (rtc_run vs first.0).0)
          ∙ ap (λ (l : List Bytes). texts first.1 ++ l) rest
          ∙ sym (append_assoc (texts first.1) (waiting first.0) (given vs))
          ∙ ap (λ (l : List Bytes). l ++ given vs) kept
          ∙ append_assoc (waiting w) (given (v ∷ [])) (given vs)
          ∙ ap (λ (l : List Bytes). waiting w ++ l) (sym (given_cons v vs)),
    )

-- Whatever opens and closes, the texts given to SendJSON are handed to the terminal channel in their
-- order, each once: those handed over, followed by those that still wait, are those given; as long as
-- no text is given on an open channel while OnOpen still has buffered texts to send, and the channel
-- is announced before it opens.
pub texts-rtc_run :
    (vs : List RtcEvent)
    → AllQuiet vs new_web_rtc_conn
    → texts (rtc_run vs new_web_rtc_conn).1 ++ waiting (rtc_run vs new_web_rtc_conn).0 ≡ given vs
unfolding new_web_rtc_conn
texts-rtc_run vs quiet = (run-Keeps vs new_web_rtc_conn (λ up. cc) quiet).1
