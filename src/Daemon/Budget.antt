-- ===== src/Daemon/Budget.antt =====
-- The attempts of cmd/claw/secure_handshake.go: how many wrong tags a client can try.
use clianywhere_daemon.Prelude.{
  string_key, ℕ, ◌+◌, ◌<◌, ◌≤◌, ◌≡◌, refl, sym, ◌∙◌, subst, true, false, Option, none, some, List,
  [], ◌⊎◌, inl, inr, Bool-cases, Option-cases, arith,
}
use clianywhere_daemon.Protocol.{Message}
use clianywhere_daemon.Secure.{Crypto}
use clianywhere_daemon.Daemon.{
  skip, max_sec_code_attempts, Daemon, Effect, Env, Spake, Pake, decrement,
}
use clianywhere_daemon.Daemon.Outgoing.{unwrap_incoming_json}
use clianywhere_daemon.Daemon.Handshake.{handle_sec_confirm, confirmed, without_pake, not_positive}
use clianywhere_daemon.Daemon.Dispatch.{
  handle_message, run_kind, kind_of, Kind, checked, pake_start, sec_confirm, kicked, peer_offline,
  ping, channel_select, file_ack_kind, ws_message_kind, ws_close_kind, other, check_sec_code,
}
use clianywhere_daemon.Daemon.Harmless.{
  Harmless, Rejects, is_locked, does-Harmless, skip-Harmless, send_json-Harmless,
  handle_kicked-Harmless, handle_peer_offline-Harmless, handle_channel_select-Harmless,
}
use clianywhere_daemon.Daemon.HarmlessHandshake.{
  handle_pake_start-Harmless, confirm_rejected-Rejects,
}
use clianywhere_daemon.Daemon.Guarded.{RightTag, RightInner, if-false, unwrap_keeps}

-- A confirmation of a handshake that is pending.
abbrev pub guesses_at : {Server : Type 0} → Kind → Option (Pake Server) → ℕ
guesses_at sec_confirm (some p) = 1
guesses_at sec_confirm none = 0
guesses_at (checked c) p = 0
guesses_at pake_start p = 0
guesses_at kicked p = 0
guesses_at peer_offline p = 0
guesses_at ping p = 0
guesses_at channel_select p = 0
guesses_at file_ack_kind p = 0
guesses_at ws_message_kind p = 0
guesses_at ws_close_kind p = 0
guesses_at other p = 0

abbrev pub guess_inside : {Server : Type 0} → Option Message → Option (Pake Server) → ℕ
guess_inside none p = 0
guess_inside (some m) p = guesses_at (kind_of m.kind) p

module _ {Aead Server Keys : Type 0} (k : Crypto Aead) (s : Spake Server Keys) where
  -- 1 if the message is a guess
  unfoldable pub guess : Daemon Aead Server → Message → ℕ
  guess d msg = let (d', inner) = unwrap_incoming_json k msg d in guess_inside inner d'.pake

  -- After a message with a wrong tag or none: as many attempts fewer as it made guesses, or locked.
  pub record Spends (d : Daemon Aead Server) (n : ℕ) (r : Daemon Aead Server × List Effect)
      : Type 0 where
    pub enabled : r.0.sec_code_enabled ≡ d.sec_code_enabled
    pub left :
        (d.sec_code_attempts_left ≡ n + r.0.sec_code_attempts_left)
          × (0 < r.0.sec_code_attempts_left)
        ⊎ ((d.sec_code_attempts_left ≡ n) × (is_locked r.1 ≡ true))

  Harmless-Spends :
      (d : Daemon Aead Server) (r : Daemon Aead Server × List Effect)
      → 0 < d.sec_code_attempts_left
      → Harmless d r
      → Spends d 0 r
  Harmless-Spends d r pos h = record {
    enabled = h.coded;
    left = inl (omega (arith, h.budget), omega (arith, h.budget));
  }

  Rejects-Spends :
      (d : Daemon Aead Server) (r : Daemon Aead Server × List Effect)
      → d.sec_code_enabled ≡ true
      → 0 < d.sec_code_attempts_left
      → d.sec_code_attempts_left ≤ 11
      → Rejects d r
      → Spends d 1 r
  Rejects-Spends d r on pos small h =
      let left : decrement d.sec_code_attempts_left + 1 ≡ d.sec_code_attempts_left = omega arith in
      elim (Bool-cases (not_positive (decrement d.sec_code_attempts_left))) [
        | inl last ↦ record { enabled = h.coded; left = inr (ground arith, h.locks on last) }
        | inr more ↦ record {
          enabled = h.coded;
          left = inl (omega (arith, h.spent on), ground (arith, h.spent on));
        }
      ]

  -- A client that is not verified, with attempts left, of a daemon with a code.
  pub record IsGuessing (d : Daemon Aead Server) : Type 0 where
    pub coded : d.sec_code_enabled ≡ true
    pub unverified : d.sec_code_verified ≡ false
    pub some_left : 0 < d.sec_code_attempts_left
    pub at_most : d.sec_code_attempts_left ≤ max_sec_code_attempts

  module _ (env : Env) where
    handle_sec_confirm-Spends :
        (msg : Message) (d : Daemon Aead Server)
        → IsGuessing d
        → ¬ RightTag k s d msg
        → Spends d (guesses_at sec_confirm d.pake) (handle_sec_confirm k s msg d)
    unfolding handle_sec_confirm skip
    handle_sec_confirm-Spends msg d v wrong = elim (Option-cases d.pake) [
      | inl e ↦
          let r = Harmless-Spends d (d, []) v.some_left (skip-Harmless d) in
          rw (e, handle_sec_confirm) (record { enabled = r.enabled; left = r.left })
      | inr (p, e) ↦ elim (Option-cases (confirmed k s p msg)) [
        | inl none_right ↦
            let r =
              Rejects-Spends (without_pake d) _ v.coded v.some_left v.at_most
                (confirm_rejected-Rejects k s env (without_pake d)) in
            rw (e, handle_sec_confirm)
              (rw (none_right, handle_sec_confirm) (record { enabled = r.enabled; left = r.left }))
        | inr (kt, right) ↦ absurd (wrong (p, kt, e, right))
      ]
    ]

    run_kind-Spends :
        (kind : Kind) (msg : Message) (d : Daemon Aead Server)
        → IsGuessing d
        → ¬ RightTag k s d msg
        → Spends d (guesses_at kind d.pake) (run_kind k s env kind msg d)
    unfolding run_kind check_sec_code
    run_kind-Spends (checked c) msg d v wrong =
        subst (Spends d 0) (sym (if-false _ _ v.unverified))
          (Harmless-Spends d _ v.some_left (send_json-Harmless k _ d))
    run_kind-Spends pake_start msg d v wrong =
        Harmless-Spends d _ v.some_left (handle_pake_start-Harmless k s env msg d)
    run_kind-Spends sec_confirm msg d v wrong = handle_sec_confirm-Spends msg d v wrong
    run_kind-Spends kicked msg d v wrong =
        Harmless-Spends d _ v.some_left (handle_kicked-Harmless k msg d)
    run_kind-Spends peer_offline msg d v wrong =
        Harmless-Spends d _ v.some_left (handle_peer_offline-Harmless k d)
    run_kind-Spends ping msg d v wrong = Harmless-Spends d _ v.some_left (send_json-Harmless k _ d)
    run_kind-Spends channel_select msg d v wrong =
        Harmless-Spends d _ v.some_left (handle_channel_select-Harmless k msg d)
    run_kind-Spends file_ack_kind msg d v wrong =
        Harmless-Spends d _ v.some_left (does-Harmless _ refl d)
    run_kind-Spends ws_message_kind msg d v wrong =
        Harmless-Spends d _ v.some_left (does-Harmless _ refl d)
    run_kind-Spends ws_close_kind msg d v wrong =
        Harmless-Spends d _ v.some_left (does-Harmless _ refl d)
    run_kind-Spends other msg d v wrong = Harmless-Spends d _ v.some_left (skip-Harmless d)

    unwrapped-IsGuessing :
        (msg : Message) (d : Daemon Aead Server)
        → IsGuessing d
        → IsGuessing (unwrap_incoming_json k msg d).0
    unwrapped-IsGuessing msg d v =
        let keeps = unwrap_keeps k s env msg d in
        record {
          coded = keeps.3 ∙ v.coded;
          unverified = keeps.0 ∙ v.unverified;
          some_left = omega (arith, keeps.2, v.some_left);
          at_most = omega (arith, keeps.2, v.at_most);
        }

    pub handle_message-Spends :
        (msg : Message) (d : Daemon Aead Server)
        → IsGuessing d
        → ¬ RightInner k s d msg
        → Spends d (guess d msg) (handle_message k s env msg d)
    unfolding handle_message guess skip
    handle_message-Spends msg d v wrong = elim (Option-cases (unwrap_incoming_json k msg d).1) [
      | inl e ↦
          let keeps = unwrap_keeps k s env msg d in
          rw (e, handle_message, guess)
            (record {
              enabled = keeps.3;
              left = inl (omega (arith, keeps.2), omega (arith, keeps.2, v.some_left));
            })
      | inr (m, e) ↦
          let keeps = unwrap_keeps k s env msg d in
          let d' = (unwrap_incoming_json k msg d).0 in
          let r = run_kind-Spends (kind_of m.kind) m d' (unwrapped-IsGuessing msg d v) (λ t.
            let (p, kt, pending, right) = t in
            wrong (m, e, (p, kt, sym keeps.1 ∙ pending, right))) in
          rw (e, handle_message, guess)
            (record {
              enabled = r.enabled ∙ keeps.3;
              left = elim r.left [
                | inl h ↦ inl (sym keeps.2 ∙ h.0, h.1)
                | inr h ↦ inr (sym keeps.2 ∙ h.0, h.1)
              ];
            })
    ]
