-- ===== src/Daemon/Handshake.antt =====
-- cmd/claw/secure_handshake.go: the daemon's side of the handshake.
use clianywhere_daemon.Prelude.{
  ℕ, ◌^◌, Bool, true, false, ◌||◌, Option, none, some, [], if◌then◌else◌, length, nat_beq, leb,
}
use clianywhere_daemon.Protocol.{
  Bytes, Message, empty_message, max_sec_code_attempts, default_sec_code,
}
use clianywhere_daemon.Secure.{Crypto, ok, err, new_secure_channel, dir_c2s, dir_s2c}
use clianywhere_daemon.Batcher.{is_empty}
use clianywhere_daemon.Daemon.{Daemon, exits, Step, skip, does, ◌>>◌, Env, Spake, Pake, decrement}
use clianywhere_daemon.Daemon.Outgoing.{send_json}

-- `remaining <= 0` of an int32 pattern
abbrev pub not_positive : ℕ → Bool
not_positive n = nat_beq n 0 || leb (2 ^ 31) n

module _ {Aead Server : Type 0} where
  -- resetSecure; a channel that was reset is dropped at once.
  unfoldable pub reset_secure : Daemon Aead Server → Daemon Aead Server
  reset_secure d = record d { bufs = []; secure = none; pake_timer = false; pake = none }

  -- The function that pakeTimer runs.
  unfoldable pub handshake_timeout : Daemon Aead Server → Daemon Aead Server
  handshake_timeout d = record d { pake = none }

  -- The case `peer_online` of handleP2PSignal
  unfoldable pub peer_online : Daemon Aead Server → Daemon Aead Server
  unfolding reset_secure
  peer_online d = reset_secure (record d { sec_code_verified = false })

  -- SetSecCode and UnsetSecCode of cmd/claw/local_server.go, once the file is written; the
  -- push of the new state to the relay is left out
  unfoldable pub set_sec_code : Daemon Aead Server → Daemon Aead Server
  set_sec_code d = record d { sec_code_enabled = true; sec_code_verified = false }

  unfoldable pub unset_sec_code : Daemon Aead Server → Daemon Aead Server
  unset_sec_code d = record d { sec_code_enabled = false }

  -- What sec_confirm clears, whatever the tag.
  abbrev pub without_pake : Daemon Aead Server → Daemon Aead Server
  without_pake d = record d { pake_timer = false; pake = none }

module _ {Aead Server Keys : Type 0} (k : Crypto Aead) (s : Spake Server Keys) where
  abbrev pub password : Env → Bytes
  password env = if is_empty env.security_code then default_sec_code else env.security_code

  abbrev pub sixteen : Option Bytes → Option Bytes
  sixteen none = none
  sixteen (some b) = if nat_beq (length b) 16 then some b else none

  -- handlePakeStart
  unfoldable pub handle_pake_start : Env → Message → Step Aead Server
  handle_pake_start env msg d = elim (k.decode64 msg.pa) [
    | none ↦ (d, [])
    | some pa ↦ elim (sixteen (k.decode64 msg.sid)) [
      | none ↦ (d, [])
      | some sid ↦ elim (s.new_server (password env) env.random) [
        | none ↦ (d, [])
        | some fresh ↦ elim (s.set_peer_share fresh pa) [
          | none ↦ (d, [])
          | some server ↦
              send_json k
                (record empty_message {
                  kind = "pake_reply";
                  sid = msg.sid;
                  pb = k.encode64 (s.share server);
                })
                (record d {
                  pake = some (record { server = server; sid = sid; access_key = d.access_key });
                  pake_timer = true;
                })
        ]
      ]
    ]
  ]

  -- The keys and the transcript if the client's tag is right.
  unfoldable pub confirmed : Pake Server → Message → Option (Keys × Bytes)
  confirmed p msg = elim (s.finish p.server p.sid p.access_key) [
    | none ↦ none
    | some kt ↦ elim (sixteen (k.decode64 msg.tag_a)) [
      | none ↦ none
      | some tag ↦ if s.verify_tag tag (s.tag_a kt.0 kt.1) then some kt else none
    ]
  ]

  -- The branch `!ok`: only a real code costs an attempt. The exit comes half a second later.
  unfoldable pub confirm_rejected : Step Aead Server
  confirm_rejected d =
      let left : ℕ =
        if d.sec_code_enabled then decrement d.sec_code_attempts_left else max_sec_code_attempts in
      let d' = record d {
        sec_code_attempts_left = if d.sec_code_enabled then left else d.sec_code_attempts_left;
      } in
      (send_json k (record empty_message { kind = "sec_code_error"; remaining_attempts = left })
          >> (if not_positive left then does (exits "sec_code_locked") else skip))
        d'

  -- The success branch
  unfoldable pub confirm_accepted : Keys → Bytes → Step Aead Server
  confirm_accepted keys transcript d =
      elim (new_secure_channel k (s.key_s2c keys) (s.key_c2s keys) dir_s2c dir_c2s) [
        | err e ↦ (d, [])
        | ok c ↦
            (send_json k (record empty_message {
              kind = "sec_ok";
              tag_b = k.encode64 (s.tag_b keys transcript);
            })
                >> send_json k (record empty_message { kind = "secure_ready" }))
              (record d {
                secure = some c;
                sec_code_verified = true;
                sec_code_attempts_left = max_sec_code_attempts;
              })
      ]

  -- handleSecConfirm
  unfoldable pub handle_sec_confirm : Message → Step Aead Server
  unfolding confirm_rejected confirm_accepted confirmed
  handle_sec_confirm msg d = elim d.pake [
    | none ↦ (d, [])
    | some p ↦ elim (confirmed p msg) [
      | none ↦ confirm_rejected (without_pake d)
      | some kt ↦ confirm_accepted kt.0 kt.1 (without_pake d)
    ]
  ]
