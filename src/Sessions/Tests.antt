-- ===== src/Sessions/Tests.antt =====
-- Witness for the table of sessions, with an emulator that keeps the bytes.
use clianywhere_daemon.Prelude.{
  if◌then◌else◌, nat_beq, ◌++◌, none, some, List, [], ◌∷◌, ◌≡◌, refl, string_key, nat_key,
}
use clianywhere_daemon.Prelude.Assoc.{lookup, insert, delete}
use clianywhere_daemon.Protocol.{Bytes}
use clianywhere_daemon.Sessions.Terminals.{Emulator}
use clianywhere_daemon.Sessions.{
  choose_name, Session, PtyManager, new_session, resize_session, close, take_out, change_session,
  read_output, resize, wait_exit, destroy, create, PtyConfig, new_pty_manager, list_sessions,
}
use clianywhere_daemon.Sessions.Steps.{live-IsOwn}
use clianywhere_daemon.Sessions.Refinement.{
  apply, destroys, exits, outputs, resizes, SessionEvent, creates, apply_all, expected_all,
  AllFresh, list_sessions-apply_all,
}

abbrev emulator : Emulator Bytes
emulator = record {
  fresh = λ lines cols rows. [];
  feed = λ s b. s ++ b;
  reflow = λ s cols rows. if nat_beq cols 1 then none else some s;
  serialize = λ s. s;
  scrollback = λ s. 100;
}

abbrev config : PtyConfig
config = record { default_cols = 80; default_rows = 24; history_lines = 100 }

-- Two sessions are created, one of them resized and written to, and the first one exits.
abbrev session_events : List SessionEvent
session_events =
    creates "a" "sh" 0 0 [] 10 1
    ∷ creates "b" "sh" 90 30 (b'x' ∷ []) 11 2
    ∷ resizes "b" 1 30
    ∷ outputs 1 (7 ∷ [])
    ∷ exits 0
    ∷ creates "a" "sh" 0 0 [] 12 3
    ∷ destroys "b"
    ∷ []

abbrev first : Session Bytes
first = new_session emulator config "a" "sh" 0 0 (choose_name [] 0).0 10 1

abbrev before_exit : PtyManager Bytes
before_exit = apply emulator config (outputs 1 (7 ∷ [])) (
    apply emulator config (resizes "b" 1 30) (
      apply emulator config (creates "b" "sh" 90 30 (b'x' ∷ []) 11 2)
        (apply emulator config (creates "a" "sh" 0 0 [] 10 1) new_pty_manager)))

fresh_events : AllFresh emulator config session_events new_pty_manager
unfolding apply lookup insert delete new_pty_manager create destroy wait_exit resize read_output
    change_session take_out close resize_session new_session
fresh_events =
    (refl, (refl, (tt, (tt, (live-IsOwn before_exit 0 first refl refl, (refl, (tt, tt)))))))

list_sessions-apply_all_example :
    list_sessions (apply_all emulator config session_events new_pty_manager)
    ≡ expected_all emulator config session_events new_pty_manager []
list_sessions-apply_all_example =
    list_sessions-apply_all emulator config session_events fresh_events
