-- ===== src/Daemon/Guarded.antt =====
-- What the checks of cmd/claw/daemon.go keep a client from doing before its handshake.
use clianywhere_daemon.Prelude.{
  subst, string_key, if◌then◌else◌, ◌≡◌, refl, sym, ◌∙◌, Bool, true, false, some, List, All,
  Option-cases, inl, inr, arith,
}
use clianywhere_daemon.Protocol.{Bytes, Message}
use clianywhere_daemon.Secure.{Crypto}
use clianywhere_daemon.Daemon.{Pake, Daemon, Effect, Env, Spake}
use clianywhere_daemon.Daemon.Outgoing.{unwrap_incoming_json}
use clianywhere_daemon.Daemon.Handshake.{without_pake, confirmed, handle_sec_confirm}
use mathlib.Core.Bool.{false≢true}
use clianywhere_daemon.Daemon.Dispatch.{
  checked, pake_start, sec_confirm, kicked, peer_offline, ping, channel_select, file_ack_kind,
  ws_message_kind, ws_close_kind, other, kind_of, Kind, handle_message, run_kind, check_sec_code,
}
use clianywhere_daemon.Daemon.Harmless.{
  NoRequest, Harmless, does-Harmless, skip-Harmless, send_json-Harmless, handle_kicked-Harmless,
  handle_peer_offline-Harmless, handle_channel_select-Harmless,
}
use clianywhere_daemon.Daemon.HarmlessHandshake.{
  handle_pake_start-Harmless, confirm_rejected-Rejects, confirm_accepted-quiet,
}

pub if-false {ℓ} : {A : Type ℓ} {b : Bool} (x y : A) → b ≡ false → (if b then x else y) ≡ y
if-false x y h = rw h refl

module _ {Aead Server Keys : Type 0} (k : Crypto Aead) (s : Spake Server Keys) where
  -- The message's tag is right for the handshake that is pending.
  abbrev pub RightTag : Daemon Aead Server → Message → Type 0
  RightTag d m =
      (p : Pake Server) × (kt : Keys × Bytes) × (d.pake ≡ some p) × (confirmed k s p m ≡ some kt)

  -- The same for what is inside an envelope.
  abbrev pub RightInner : Daemon Aead Server → Message → Type 0
  RightInner d msg = (m : Message) × ((unwrap_incoming_json k msg d).1 ≡ some m) × RightTag d m

  pub record IsGuarded (d : Daemon Aead Server) (Right : Type 0)
      (r : Daemon Aead Server × List Effect) : Type 0 where
    pub quiet : All NoRequest r.1
    pub verified : r.0.sec_code_verified ≡ true → Right

  module _ (env : Env) where
    handle_sec_confirm-IsGuarded :
        (msg : Message) (d : Daemon Aead Server)
        → d.sec_code_verified ≡ false
        → IsGuarded d (RightTag d msg) (handle_sec_confirm k s msg d)
    unfolding handle_sec_confirm
    handle_sec_confirm-IsGuarded msg d h = elim (Option-cases d.pake) [
      | inl e ↦
          rw (e, handle_sec_confirm)
            (record { quiet = tt; verified = λ x. absurd (false≢true (sym h ∙ x)) })
      | inr (p, e) ↦
          rw (e, handle_sec_confirm)
            (elim (Option-cases (confirmed k s p msg)) [
              | inl wrong ↦
                  let r = confirm_rejected-Rejects k s env (without_pake d) in
                  rw (wrong, handle_sec_confirm)
                    (record {
                      quiet = r.quiet;
                      verified = λ x. absurd (false≢true (sym h ∙ r.kept x));
                    })
              | inr (kt, right) ↦
                  rw (right, handle_sec_confirm)
                    (record {
                      quiet = confirm_accepted-quiet k s env kt.0 kt.1 (without_pake d);
                      verified = λ x. (p, kt, refl, right);
                    })
            ])
    ]

    Harmless-IsGuarded :
        {Right : Type 0} (d : Daemon Aead Server) (r : Daemon Aead Server × List Effect)
        → d.sec_code_verified ≡ false
        → Harmless d r
        → IsGuarded d Right r
    Harmless-IsGuarded d r h a = record {
      quiet = a.quiet;
      verified = λ e. absurd (false≢true (sym h ∙ a.kept e));
    }

    run_kind-IsGuarded :
        (kind : Kind) (msg : Message) (d : Daemon Aead Server)
        → d.sec_code_verified ≡ false
        → IsGuarded d (RightTag d msg) (run_kind k s env kind msg d)
    unfolding run_kind check_sec_code
    run_kind-IsGuarded (checked c) msg d h =
        subst (IsGuarded d (RightTag d msg)) (sym (if-false _ _ h))
          (Harmless-IsGuarded d _ h (send_json-Harmless k _ d))
    run_kind-IsGuarded pake_start msg d h =
        Harmless-IsGuarded d _ h (handle_pake_start-Harmless k s env msg d)
    run_kind-IsGuarded sec_confirm msg d h = handle_sec_confirm-IsGuarded msg d h
    run_kind-IsGuarded kicked msg d h = Harmless-IsGuarded d _ h (handle_kicked-Harmless k msg d)
    run_kind-IsGuarded peer_offline msg d h =
        Harmless-IsGuarded d _ h (handle_peer_offline-Harmless k d)
    run_kind-IsGuarded ping msg d h = Harmless-IsGuarded d _ h (send_json-Harmless k _ d)
    run_kind-IsGuarded channel_select msg d h =
        Harmless-IsGuarded d _ h (handle_channel_select-Harmless k msg d)
    run_kind-IsGuarded file_ack_kind msg d h = Harmless-IsGuarded d _ h (does-Harmless _ refl d)
    run_kind-IsGuarded ws_message_kind msg d h = Harmless-IsGuarded d _ h (does-Harmless _ refl d)
    run_kind-IsGuarded ws_close_kind msg d h = Harmless-IsGuarded d _ h (does-Harmless _ refl d)
    run_kind-IsGuarded other msg d h = Harmless-IsGuarded d _ h (skip-Harmless d)

    pub unwrap_keeps :
        (m : Message) (d : Daemon Aead Server)
        → ((unwrap_incoming_json k m d).0.sec_code_verified ≡ d.sec_code_verified)
          × ((unwrap_incoming_json k m d).0.pake ≡ d.pake)
          × ((unwrap_incoming_json k m d).0.sec_code_attempts_left ≡ d.sec_code_attempts_left)
          × ((unwrap_incoming_json k m d).0.sec_code_enabled ≡ d.sec_code_enabled)
    unfolding unwrap_incoming_json
    unwrap_keeps m d = ground arith

    -- Before the client has finished the handshake, no message of any type makes the daemon call a
    -- manager for it (create, destroy, write to or resize a session, read a history, or ask for a
    -- file, a directory, or a new proxy connection); and the only message after which it
    -- counts as verified is one whose tag is right for the handshake pending before it.
    pub handle_message-IsGuarded :
        (msg : Message) (d : Daemon Aead Server)
        → d.sec_code_verified ≡ false
        → IsGuarded d (RightInner d msg) (handle_message k s env msg d)
    unfolding handle_message
    handle_message-IsGuarded msg d h = elim (Option-cases (unwrap_incoming_json k msg d).1) [
      | inl e ↦
          rw (e, handle_message)
            (record {
              quiet = tt;
              verified = λ x. absurd (false≢true (sym h ∙ sym (unwrap_keeps msg d).0 ∙ x));
            })
      | inr (m, e) ↦
          let d' = (unwrap_incoming_json k msg d).0 in
          let g = run_kind-IsGuarded (kind_of m.kind) m d' ((unwrap_keeps msg d).0 ∙ h) in
          rw (e, handle_message)
            (record {
              quiet = g.quiet;
              verified = λ x.
                  let (p, kt, pending, right) = g.verified x in
                  (m, refl, (p, kt, sym (unwrap_keeps msg d).1 ∙ pending, right));
            })
    ]
