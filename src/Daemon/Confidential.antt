-- ===== src/Daemon/Confidential.antt =====
-- handleMessage and sendOutput of cmd/claw/daemon.go while the encrypted channel is active.
use clianywhere_daemon.Prelude.{
  string_key, ◌==◌, ℕ, ◌≡◌, refl, ◌∙◌, Bool, true, false, ◌||◌, not, List, [], String, All,
  All-append, Bool-cases, Option-cases, inl, inr, arith, if◌then◌else◌,
}
use clianywhere_daemon.Protocol.{Bytes, Message}
use clianywhere_daemon.Secure.{unwrap_json, Crypto}
use clianywhere_daemon.Daemon.{
  drains_relay, Daemon, Effect, Step, ◌>>◌, does, skip, sets, Env, Spake,
}
use clianywhere_daemon.Daemon.Outgoing.{channel_is_p2p, unwrap_incoming_json, flush, send_json}
use clianywhere_daemon.Daemon.Handlers.{
  direct_output, holds, batch_output, handle_kicked, handle_peer_offline, send_output, select_p2p,
  channel_text, handle_channel_select,
}
use clianywhere_daemon.Daemon.Dispatch.{
  kind_of, Kind, check_sec_code, run_kind, handle_message, checked, pake_start, sec_confirm, kicked,
  peer_offline, ping, channel_select, file_ack_kind, ws_message_kind, ws_close_kind, other,
}
use clianywhere_daemon.Daemon.Handshake.{reset_secure}
use clianywhere_daemon.Daemon.Harmless.{Result-cases}
use clianywhere_daemon.Secure.Wrapping.{unwrap_json_active}
use clianywhere_daemon.Daemon.Sealed.{
  active_cases, still_active, IsSealed, secure_active, then-Seals, does-Seals, skip-Seals,
  sets-Seals, if-Seals, send_json_direct-Seals, send_all-Seals, flush-Seals, send_json-Seals,
  send_json-exempt,
}
use clianywhere_daemon.Secure.Kinds.{is_encrypted_type, is_plaintext_exempt}
use clianywhere_daemon.Daemon.Private.{run_checked-Seals}
use clianywhere_daemon.Daemon.SealedHandshake.{
  Sealing, handle_pake_start_sealed, handle_sec_confirm_sealed,
}

module _ {Aead Server Keys : Type 0} (k : Crypto Aead) (s : Spake Server Keys) (env : Env) where
  then-IsSealed :
      (f g : Step Aead Server) (d : Daemon Aead Server)
      → All IsSealed (f d).1
      → All IsSealed (g (f d).0).1
      → All IsSealed ((f >> g) d).1
  unfolding ◌>>◌
  then-IsSealed f g d x y = All-append IsSealed (f d).1 (g (f d).0).1 x y

  drained :
      (d : Daemon Aead Server)
      → All IsSealed (does {Aead = Aead} {Server = Server} drains_relay d).1
  unfolding does
  drained d = (refl, tt)

  selected_exempt : is_plaintext_exempt "channel_selected" ≡ true
  unfolding is_plaintext_exempt
  selected_exempt = refl

  -- The rest of a channel selection, after the flush. The reply is of an exempt kind.
  switch-IsSealed :
      (p2p : Bool) (channel : String) (m : Message) (d : Daemon Aead Server)
      → is_plaintext_exempt m.kind ≡ true
      → secure_active d ≡ true
      → All IsSealed
          (((if p2p then select_p2p k else skip)
              >> sets (λ (d : Daemon Aead Server). record d { channel_mode = channel })
              >> send_json k m
              >> (if p2p then does drains_relay else skip))
            d).1
  unfolding reset_secure sets
  switch-IsSealed true channel m d h a = then-IsSealed (select_p2p k) _ d tt (
      then-IsSealed (sets (λ (d : Daemon Aead Server). record d { channel_mode = channel })) _ _ tt
        (then-IsSealed (send_json k m) (does drains_relay) _ (send_json-exempt k m _ refl h)
          (drained _)))
  switch-IsSealed false channel m d h a =
      (then-Seals _ _ skip-Seals
        (then-Seals _ _ (sets-Seals _ (λ d. refl))
          (then-Seals _ _ (send_json-Seals k m) skip-Seals))
        d a).0

  choose_step :
      (b : Bool) (f g : Step Aead Server) (d : Daemon Aead Server)
      → All IsSealed (f d).1
      → All IsSealed (g d).1
      → All IsSealed ((if b then f else g) d).1
  choose_step true f g d h i = h
  choose_step false f g d h i = i

  handle_channel_select_sealed :
      (msg : Message) (d : Daemon Aead Server) → Sealing k s env d (handle_channel_select k msg d)
  unfolding handle_channel_select
  handle_channel_select_sealed msg d a =
      let channel = channel_text msg.payload in
      choose_step (channel == "p2p" || channel == "ts") _ _ d
        (then-IsSealed (flush k) _ d (flush-Seals k d a).0 (
          switch-IsSealed (channel == "p2p") channel _ (flush k d).0 selected_exempt
            (flush-Seals k d a).1))
        (skip-Seals d a).0

  choose-IsSealed :
      (b : Bool) (x y : Daemon Aead Server × List Effect)
      → All IsSealed x.1
      → All IsSealed y.1
      → All IsSealed (if b then x else y).1
  choose-IsSealed true x y h i = h
  choose-IsSealed false x y h i = i

  run_kind_sealed :
      (kind : Kind) (msg : Message) (d : Daemon Aead Server)
      → Sealing k s env d (run_kind k s env kind msg d)
  unfolding run_kind check_sec_code handle_peer_offline handle_kicked
  run_kind_sealed (checked c) msg d a =
      choose-IsSealed d.sec_code_verified _ _ (run_checked-Seals k s env c msg d a).0
        (send_json-Seals k _ d a).0
  run_kind_sealed pake_start msg d a = handle_pake_start_sealed k s env msg d a
  run_kind_sealed sec_confirm msg d a = handle_sec_confirm_sealed k s env msg d a
  run_kind_sealed kicked msg d a =
      (if-Seals (msg.reason == "daemon_replaced") _ _ (does-Seals _ refl)
        (then-Seals _ _ (does-Seals _ refl) (
          then-Seals _ _ (does-Seals _ refl)
            (then-Seals _ _ (does-Seals _ refl) (sets-Seals _ (λ d. refl)))))
        d a).0
  run_kind_sealed peer_offline msg d a = ground arith
  run_kind_sealed ping msg d a = (send_json-Seals k _ d a).0
  run_kind_sealed channel_select msg d a = handle_channel_select_sealed msg d a
  run_kind_sealed file_ack_kind msg d a = (does-Seals _ refl d a).0
  run_kind_sealed ws_message_kind msg d a = (does-Seals _ refl d a).0
  run_kind_sealed ws_close_kind msg d a = (does-Seals _ refl d a).0
  run_kind_sealed other msg d a = (skip-Seals d a).0

  unwrap_active :
      (msg : Message) (d : Daemon Aead Server)
      → secure_active d ≡ true
      → secure_active (unwrap_incoming_json k msg d).0 ≡ true
  unfolding unwrap_incoming_json secure_active
  unwrap_active msg d a = elim (Bool-cases (is_encrypted_type msg.kind)) [
    | inr plain ↦ rw plain a
    | inl covered ↦
        let (c, e, live) = active_cases d.secure a in
        rw covered (
          rw (e, unwrap_incoming_json)
            (elim (Result-cases (unwrap_json k c msg).1) [
              | inl (m, h) ↦
                  rw (h, unwrap_incoming_json) (still_active _ (unwrap_json_active k c msg ∙ live))
              | inr (x, h) ↦
                  rw (h, unwrap_incoming_json) (still_active _ (unwrap_json_active k c msg ∙ live))
            ]))
  ]

  output-IsSealed :
      (b c e f : Bool) (x y : Daemon Aead Server × List Effect) (d : Daemon Aead Server)
      → All IsSealed x.1
      → All IsSealed y.1
      → All IsSealed
          (if b
            then (d, [])
            else if c
            then (d, [])
            else if e
            then x
            else if f
            then (d, [])
            else y).1
  output-IsSealed true c e f x y d h i = tt
  output-IsSealed false true e f x y d h i = tt
  output-IsSealed false false true f x y d h i = h
  output-IsSealed false false false true x y d h i = tt
  output-IsSealed false false false false x y d h i = i

  direct_output_sealed :
      (sid : String) (bytes : Bytes) (seq : ℕ) (d : Daemon Aead Server)
      → Sealing k s env d (direct_output k sid bytes seq d)
  unfolding direct_output
  direct_output_sealed sid bytes seq d a = (send_json_direct-Seals k _ d a).0

  batch_output_sealed :
      (now : ℕ) (sid : String) (bytes : Bytes) (seq : ℕ) (d : Daemon Aead Server)
      → Sealing k s env d (batch_output k now sid bytes seq d)
  unfolding batch_output secure_active
  batch_output_sealed now sid bytes seq d a = (send_all-Seals k _ (record d { bufs = _ }) a).0

  -- While the encrypted channel is active, whatever message arrives, and whatever a session prints,
  -- every message that leaves the daemon is an envelope or of one of the eighteen kinds of
  -- plaintextExemptTypes: those of the handshake and of the security code, channel selection, the
  -- notices peer_online, peer_offline and kicked, ping and pong, and session_info, which shows the
  -- ids, names and shells of the sessions in the clear.
  pub handle_message-IsSealed :
      (msg : Message) (now : ℕ) (sid : String) (bytes : Bytes) (seq : ℕ) (d : Daemon Aead Server)
      → secure_active d ≡ true
      → All IsSealed (handle_message k s env msg d).1
        × All IsSealed (send_output k now sid bytes seq d).1
  unfolding handle_message send_output
  handle_message-IsSealed msg now sid bytes seq d a = (
    elim (Option-cases (unwrap_incoming_json k msg d).1) [
      | inl e ↦ rw (e, handle_message) tt
      | inr (m, e) ↦
          rw (e, handle_message) (run_kind_sealed (kind_of m.kind) m _ (unwrap_active msg d a))
    ],
    (
      refl,
      output-IsSealed (not (holds d.subscribed sid) || holds d.muted sid) (not d.sec_code_verified)
          (channel_is_p2p d) (not d.relay_connected) (direct_output k sid bytes seq d)
          (batch_output k now sid bytes seq d) d (direct_output_sealed sid bytes seq d a)
          (batch_output_sealed now sid bytes seq d a),
    ),
  )
