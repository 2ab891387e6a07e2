-- ===== src/Daemon/SealedHandshake.antt =====
-- The handshake of cmd/claw/secure_handshake.go while the encrypted channel is active.
use clianywhere_daemon.Prelude.{string_key, ◌≡◌, refl, true, List, All, Option-cases, inl, inr}
use clianywhere_daemon.Protocol.{Bytes, Message}
use clianywhere_daemon.Secure.{Crypto, new_secure_channel, dir_s2c, dir_c2s}
use clianywhere_daemon.Daemon.{Daemon, Effect, Env, Spake}
use clianywhere_daemon.Daemon.Handshake.{
  password, without_pake, confirmed, confirm_accepted, confirm_rejected, sixteen, handle_pake_start,
  handle_sec_confirm,
}
use clianywhere_daemon.Daemon.Harmless.{Result-cases}
use clianywhere_daemon.Secure.Wrapping.{new_secure_channel_active}
use clianywhere_daemon.Daemon.Sealed.{
  still_active, IsSealed, secure_active, then-Seals, does-Seals, skip-Seals, if-Seals,
  send_json-Seals,
}

module _ {Aead Server Keys : Type 0} (k : Crypto Aead) (s : Spake Server Keys) (env : Env) where
  -- The messages of a step are sealed, whatever becomes of the channel.
  abbrev pub Sealing : Daemon Aead Server → Daemon Aead Server × List Effect → Type 0
  Sealing d r = secure_active d ≡ true → All IsSealed r.1

  pub handle_pake_start_sealed :
      (msg : Message) (d : Daemon Aead Server) → Sealing d (handle_pake_start k s env msg d)
  unfolding handle_pake_start secure_active
  handle_pake_start_sealed msg d a = elim (Option-cases (k.decode64 msg.pa)) [
    | inl e ↦ rw (e, handle_pake_start) tt
    | inr (pa, e) ↦
        rw (e, handle_pake_start)
          (elim (Option-cases (sixteen k s (k.decode64 msg.sid))) [
            | inl e ↦ rw (e, handle_pake_start) tt
            | inr (sid, e) ↦
                rw (e, handle_pake_start)
                  (elim (Option-cases (s.new_server (password k s env) env.random)) [
                    | inl e ↦ rw (e, handle_pake_start) tt
                    | inr (fresh, e) ↦
                        rw (e, handle_pake_start)
                          (elim (Option-cases (s.set_peer_share fresh pa)) [
                            | inl e ↦ rw (e, handle_pake_start) tt
                            | inr (server, e) ↦
                                rw (e, handle_pake_start) (send_json-Seals k _ _ a).0
                          ])
                  ])
          ])
  ]

  confirm_rejected_sealed : (d : Daemon Aead Server) → Sealing d (confirm_rejected k s d)
  unfolding confirm_rejected secure_active
  confirm_rejected_sealed d a =
      (then-Seals _ _ (send_json-Seals k _) (if-Seals _ _ _ (does-Seals _ refl) skip-Seals) _ a).0

  confirm_accepted-IsSealed :
      (keys : Keys) (transcript : Bytes) (d : Daemon Aead Server)
      → All IsSealed (confirm_accepted k s keys transcript d).1
  unfolding confirm_accepted secure_active
  confirm_accepted-IsSealed keys transcript d =
      elim (Result-cases (new_secure_channel k (s.key_s2c keys) (s.key_c2s keys) dir_s2c dir_c2s)) [
        | inr (e, h) ↦ rw (h, confirm_accepted) tt
        | inl (c, h) ↦
            let live : c.active ≡ true =
              rw h at
                (new_secure_channel_active k (s.key_s2c keys) (s.key_c2s keys) dir_s2c dir_c2s) in
            rw (h, confirm_accepted)
              (then-Seals _ _ (send_json-Seals k _) (send_json-Seals k _) _ (still_active c live)).0
      ]

  pub handle_sec_confirm_sealed :
      (msg : Message) (d : Daemon Aead Server) → Sealing d (handle_sec_confirm k s msg d)
  unfolding handle_sec_confirm secure_active
  handle_sec_confirm_sealed msg d a = elim (Option-cases d.pake) [
    | inl e ↦ rw (e, handle_sec_confirm) tt
    | inr (p, e) ↦ elim (Option-cases (confirmed k s p msg)) [
      | inl wrong ↦
          rw (e, handle_sec_confirm)
            (rw (wrong, handle_sec_confirm) (confirm_rejected_sealed (without_pake d) a))
      | inr (kt, right) ↦
          rw (e, handle_sec_confirm)
            (rw (right, handle_sec_confirm) (confirm_accepted-IsSealed kt.0 kt.1 (without_pake d)))
    ]
  ]
