-- ===== src/Sessions/Refinement.antt =====
-- cmd/claw/pty.go: the table of sessions keeps a list of the live ones, in the order of creation.
use clianywhere_daemon.Prelude.{
  ℕ, none, List, [], ◌∷◌, ◌++◌, String, ◌≡◌, refl, ap, ◌∙◌, arith, Option-cases, Bool-cases, inl,
  inr, string_key, nat_key,
}
use clianywhere_daemon.Prelude.Assoc.{lookup}
use clianywhere_daemon.Protocol.{SessionInfo, Bytes}
use clianywhere_daemon.Text.{Text}
use clianywhere_daemon.Sessions.Terminals.{Emulator}
use clianywhere_daemon.Sessions.Names.{choose_name}
use clianywhere_daemon.Sessions.{
  is_empty, new_session, record_output, new_pty_manager, Session, PtyManager, PtyConfig,
  session_info, list_from, destroy, wait_exit, destroy_all, list_sessions, resize, resize_session,
  create, read_output,
}
use clianywhere_daemon.Sessions.Tables.{remove_info, IsTable}
use clianywhere_daemon.Sessions.Steps.{
  IsOwn, Lists, changed, destroy-Lists, wait_exit-Lists, destroy_all-Lists, live_id, remove_live,
}
use clianywhere_daemon.Sessions.Creation.{created-Lists}

pub data SessionEvent : Type 0 where
  -- the id, the shell, the size, the name that was asked for, the process, the time
  creates : String → String → ℕ → ℕ → Text → ℕ → ℕ → SessionEvent
  destroys : String → SessionEvent
  exits : ℕ → SessionEvent
  destroys_all : SessionEvent
  resizes : String → ℕ → ℕ → SessionEvent
  outputs : ℕ → Bytes → SessionEvent

module _ {Screen : Type 0} (e : Emulator Screen) (cfg : PtyConfig) where
  unfoldable pub apply : SessionEvent → PtyManager Screen → PtyManager Screen
  apply (creates id shell cols rows name pid now) m = create e cfg id shell cols rows name pid now m
  apply (destroys id) m = destroy id m
  apply (exits place) m = (wait_exit place m).0
  apply destroys_all m = destroy_all m
  apply (resizes id cols rows) m = resize e cfg id cols rows m
  apply (outputs place b) m = (read_output e place b m).0

  -- What the event does to a list of live sessions, given the counter of names and the id of the
  -- live session, if there is one, whose process a place is.
  pub expected : SessionEvent → PtyManager Screen → List SessionInfo → List SessionInfo
  expected (creates id shell cols rows name pid now) m infos =
      infos
      ++ record {
        id = id;
        pid = pid;
        shell = shell;
        created_at = now;
        name = (choose_name name m.name_counter).0;
      }
        ∷ []
  expected (destroys id) m infos = remove_info id infos
  expected (exits place) m infos = remove_live (live_id m place) infos
  expected destroys_all m infos = []
  expected (resizes id cols rows) m infos = infos
  expected (outputs place b) m infos = infos

  -- A session is created under an id that no live session has, and the process of a session ends
  -- when no other session is live under its id.
  abbrev pub IsFresh : SessionEvent → PtyManager Screen → Type 0
  IsFresh (creates id shell cols rows name pid now) m = lookup id m.sessions ≡ none
  IsFresh (destroys id) m = Unit
  IsFresh (exits place) m = IsOwn m place
  IsFresh destroys_all m = Unit
  IsFresh (resizes id cols rows) m = Unit
  IsFresh (outputs place b) m = Unit

  pub apply_all : List SessionEvent → PtyManager Screen → PtyManager Screen
  apply_all [] m = m
  apply_all (v ∷ vs) m = apply_all vs (apply v m)

  pub expected_all : List SessionEvent → PtyManager Screen → List SessionInfo → List SessionInfo
  expected_all [] m infos = infos
  expected_all (v ∷ vs) m infos = expected_all vs (apply v m) (expected v m infos)

  abbrev pub AllFresh : List SessionEvent → PtyManager Screen → Type 0
  AllFresh [] m = Unit
  AllFresh (v ∷ vs) m = IsFresh v m × AllFresh vs (apply v m)

  resize-Quiet :
      (cols rows : ℕ) (s : Session Screen)
      → session_info (resize_session e cfg cols rows s) ≡ session_info s
  unfolding resize_session session_info
  resize-Quiet cols rows s = ground arith

  record_output-Quiet :
      (b : Bytes) (s : Session Screen) → session_info (record_output e b s) ≡ session_info s
  unfolding record_output session_info
  record_output-Quiet b s = refl

  module _ (m : PtyManager Screen) (h : IsTable m) where
    resize-Lists :
        (id : String) (cols rows : ℕ) → Lists m h (resize e cfg id cols rows m) (list_sessions m)
    unfolding resize
    resize-Lists id cols rows = elim (Option-cases (lookup id m.sessions)) [
      | inl q ↦ rw (q, resize) (h, refl)
      | inr (place, q) ↦
          rw (q, resize)
            (changed m h (resize_session e cfg cols rows) place (resize-Quiet cols rows))
    ]

    output-Lists : (place : ℕ) (b : Bytes) → Lists m h (read_output e place b m).0 (list_sessions m)
    unfolding read_output
    output-Lists place b = elim (Bool-cases (is_empty b)) [
      | inl q ↦ rw q (h, refl)
      | inr q ↦ rw q (changed m h (record_output e b) place (λ s. record_output-Quiet b s))
    ]

    apply-Lists :
        (v : SessionEvent) → IsFresh v m → Lists m h (apply v m) (expected v m (list_sessions m))
    unfolding apply expected create new_session session_info
    apply-Lists (creates id shell cols rows name pid now) fresh =
        created-Lists m h
          (new_session e cfg id shell cols rows (choose_name name m.name_counter).0 pid now)
          (choose_name name m.name_counter).1 fresh
    apply-Lists (destroys id) fresh = destroy-Lists m h id
    apply-Lists (exits place) fresh = wait_exit-Lists m h place fresh
    apply-Lists destroys_all fresh = destroy_all-Lists m h
    apply-Lists (resizes id cols rows) fresh = resize-Lists id cols rows
    apply-Lists (outputs place b) fresh = output-Lists place b

  run-Lists :
      (vs : List SessionEvent) (m : PtyManager Screen)
      → IsTable m
      → AllFresh vs m
      → IsTable (apply_all vs m)
        × (list_sessions (apply_all vs m) ≡ expected_all vs m (list_sessions m))
  unfolding apply_all expected_all
  run-Lists [] m h f = (h, refl)
  run-Lists (v ∷ vs) m h f =
      let (sound, listed) = apply-Lists m h v f.0 in
      let (last, same) = run-Lists vs (apply v m) sound f.1 in
      (last, same ∙ ap (expected_all vs (apply v m)) listed)

  -- After any sequence of creations, destructions, exits, resizes and outputs, ListSessions returns
  -- the sessions created and not yet destroyed or exited, in the order of their creation, with the
  -- names that Create chose; as long as each creation has an id that no live session has, and no
  -- process of a session that was destroyed ends when a new session is live under its id.
  pub list_sessions-apply_all :
      (vs : List SessionEvent)
      → AllFresh vs new_pty_manager
      → list_sessions (apply_all vs new_pty_manager) ≡ expected_all vs new_pty_manager []
  unfolding new_pty_manager list_sessions list_from lookup
  list_sessions-apply_all vs f =
      (run-Lists vs new_pty_manager (record { holds = λ k p q. cc; distinct = tt; ordered = tt })
        f).1
