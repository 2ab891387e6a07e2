-- ===== src/Daemon/HarmlessHandshake.antt =====
-- The handshake of cmd/claw/secure_handshake.go makes no request to a manager, and what a wrong tag costs.
use clianywhere_daemon.Prelude.{string_key, refl, ◌∙◌, All, Option-cases, inl, inr}
use clianywhere_daemon.Protocol.{Bytes, Message}
use clianywhere_daemon.Secure.{dir_c2s, dir_s2c, new_secure_channel, Crypto}
use clianywhere_daemon.Daemon.{does, skip, Daemon, exits, Env, Spake}
use clianywhere_daemon.Daemon.Handshake.{
  password, confirm_accepted, sixteen, handle_pake_start, confirm_rejected,
}
use clianywhere_daemon.Daemon.Harmless.{
  NoRequest, Harmless, Rejects, IsHarmless, then-Harmless, does-Harmless, skip-Harmless,
  send_json-Harmless, if-Harmless, then-is_locked, does-is_locked, Result-cases,
}

module _ {Aead Server Keys : Type 0} (k : Crypto Aead) (s : Spake Server Keys) (env : Env) where
  pub handle_pake_start-Harmless : (msg : Message) → IsHarmless (handle_pake_start k s env msg)
  unfolding handle_pake_start skip
  handle_pake_start-Harmless msg d = elim (Option-cases (k.decode64 msg.pa)) [
    | inl e ↦ rw (e, handle_pake_start) (skip-Harmless d)
    | inr (pa, e) ↦
        rw (e, handle_pake_start)
          (elim (Option-cases (sixteen k s (k.decode64 msg.sid))) [
            | inl e ↦ rw (e, handle_pake_start) (skip-Harmless d)
            | inr (sid, e) ↦
                rw (e, handle_pake_start)
                  (elim (Option-cases (s.new_server (password k s env) env.random)) [
                    | inl e ↦ rw (e, handle_pake_start) (skip-Harmless d)
                    | inr (fresh, e) ↦
                        rw (e, handle_pake_start)
                          (elim (Option-cases (s.set_peer_share fresh pa)) [
                            | inl e ↦ rw (e, handle_pake_start) (skip-Harmless d)
                            | inr (server, e) ↦
                                let sent = send_json-Harmless k _ _ in
                                rw (e, handle_pake_start)
                                  (record {
                                    quiet = sent.quiet;
                                    kept = sent.kept;
                                    budget = sent.budget;
                                    coded = sent.coded;
                                  })
                          ])
                  ])
          ])
  ]

  pub confirm_rejected-Rejects : (d : Daemon Aead Server) → Rejects d (confirm_rejected k s d)
  unfolding confirm_rejected
  confirm_rejected-Rejects d =
      let done =
        then-Harmless _ _ (send_json-Harmless k _)
          (if-Harmless k _ _ _ (does-Harmless _ refl) skip-Harmless) _ in
      record {
        quiet = done.quiet;
        kept = done.kept;
        coded = done.coded;
        spent = λ h. done.budget ∙ rw h refl;
        locks = λ h n.
            rw (h, n)
              (then-is_locked _ (does (exits "sec_code_locked")) _ λ d'. does-is_locked _ refl d');
      }

  pub confirm_accepted-quiet :
      (keys : Keys) (transcript : Bytes) (d : Daemon Aead Server)
      → All NoRequest (confirm_accepted k s keys transcript d).1
  unfolding confirm_accepted
  confirm_accepted-quiet keys transcript d =
      elim (Result-cases (new_secure_channel k (s.key_s2c keys) (s.key_c2s keys) dir_s2c dir_c2s)) [
        | inr (e, h) ↦ rw (h, confirm_accepted) tt
        | inl (c, h) ↦
            rw (h, confirm_accepted)
              (Harmless.quiet
                (then-Harmless _ _ (send_json-Harmless k _) (send_json-Harmless k _) _))
      ]
