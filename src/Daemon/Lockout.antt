-- ===== src/Daemon/Lockout.antt =====
-- The attempts of cmd/claw/secure_handshake.go over any sequence of messages.
use clianywhere_daemon.Prelude.{
  string_key, ℕ, ◌+◌, ◌<◌, ◌≤◌, ◌≡◌, ◌∙◌, true, List, [], ◌∷◌, ◌⊎◌, inl, inr, Bool-cases, arith,
}
use clianywhere_daemon.Protocol.{Message}
use clianywhere_daemon.Secure.{Crypto}
use clianywhere_daemon.Daemon.{◌>>◌, skip, Daemon, Step, Env, Spake}
use clianywhere_daemon.Daemon.Dispatch.{handle_message}
use clianywhere_daemon.Daemon.Harmless.{is_locked-append, is_locked-append_left, is_locked}
use clianywhere_daemon.Daemon.Guarded.{RightInner, handle_message-IsGuarded}
use clianywhere_daemon.Daemon.Budget.{guess, IsGuessing, handle_message-Spends}

module _ {Aead Server Keys : Type 0} (k : Crypto Aead) (s : Spake Server Keys) where
  pub run : List (Env × Message) → Step Aead Server
  run [] = skip
  run ((env, msg) ∷ ms) = handle_message k s env msg >> run ms

  -- How many of the messages are guesses
  pub guesses : List (Env × Message) → Daemon Aead Server → ℕ
  guesses [] d = 0
  guesses ((env, msg) ∷ ms) d = guess k s d msg + guesses ms (handle_message k s env msg d).0

  -- None of them has the right tag.
  abbrev pub AllWrong : List (Env × Message) → Daemon Aead Server → Type 0
  AllWrong [] d = Unit
  AllWrong ((env, msg) ∷ ms) d =
      (¬ RightInner k s d msg) × AllWrong ms (handle_message k s env msg d).0

  after-IsGuessing :
      (env : Env) (msg : Message) (d : Daemon Aead Server)
      → IsGuessing k s d
      → ¬ RightInner k s d msg
      → 0 < (handle_message k s env msg d).0.sec_code_attempts_left
      → (handle_message k s env msg d).0.sec_code_attempts_left ≤ d.sec_code_attempts_left
      → IsGuessing k s (handle_message k s env msg d).0
  after-IsGuessing env msg d v wrong pos le =
      let spent = handle_message-Spends k s env msg d v wrong in
      let guarded = handle_message-IsGuarded k s env msg d v.unverified in
      record {
        coded = spent.enabled ∙ v.coded;
        unverified = elim (Bool-cases (handle_message k s env msg d).0.sec_code_verified) [
          | inl now ↦ absurd (wrong (guarded.verified now))
          | inr still ↦ still
        ];
        some_left = pos;
        at_most = omega (arith, v.at_most);
      }

  -- A client that is not verified sends any messages to a daemon with a code, with between 1 and 11
  -- attempts left; none of the messages carries the right tag for the handshake pending then.
  -- Either it made fewer guesses than there were attempts, and the attempts left are the
  -- difference, or it made at least as many, and the daemon has decided to exit.
  pub run_spends :
      (ms : List (Env × Message)) (d : Daemon Aead Server)
      → IsGuessing k s d
      → AllWrong ms d
      → (d.sec_code_attempts_left ≡ guesses ms d + (run ms d).0.sec_code_attempts_left)
          × (0 < (run ms d).0.sec_code_attempts_left)
        ⊎ ((d.sec_code_attempts_left ≤ guesses ms d) × (is_locked (run ms d).1 ≡ true))
  unfolding run guesses ◌>>◌ skip
  run_spends [] d v wrong = inl (omega arith, v.some_left)
  run_spends ((env, msg) ∷ ms) d v wrong =
      let first = handle_message k s env msg d in
      elim (handle_message-Spends k s env msg d v wrong.0).left [
        | inr h ↦ inr (omega (arith, h.0), is_locked-append_left first.1 (run ms first.0).1 h.1)
        | inl h ↦
            elim (run_spends ms first.0
              (after-IsGuessing env msg d v wrong.0 h.1 (omega (arith, h.0))) wrong.1) [
                | inl i ↦ inl (omega (arith, h.0, i.0), i.1)
                | inr i ↦
                    inr (omega (arith, h.0, i.0), is_locked-append first.1 (run ms first.0).1 i.1)
              ]
      ]
