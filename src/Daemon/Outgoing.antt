-- ===== src/Daemon/Outgoing.antt =====
-- cmd/claw/daemon.go and cmd/claw/secure_handshake.go: how a message leaves the daemon, and how one
-- is let in.
use clianywhere_daemon.Prelude.{
  ℕ, ◌-◌, Bool, not, ◌&&◌, Option, none, some, List, [], ◌∷◌, string_key, ◌==◌, if◌then◌else◌,
  length, nat_beq,
}
use clianywhere_daemon.Protocol.{
  Bytes, Message, opcode_secure_binary, max_frame_size, p2p_max_message_size, proxy_relay_chunk,
  proxy_p2p_chunk, proxy_frame_header_size, secure_binary_overhead,
}
use clianywhere_daemon.Secure.{
  Crypto, SecureChannel, ok, err, wrap_json, unwrap_json, wrap_binary, unwrap_binary, first_byte,
}
use clianywhere_daemon.Secure.Kinds.{is_encrypted_type, is_plaintext_exempt}
use clianywhere_daemon.Batcher.{is_empty}
use clianywhere_daemon.Batcher.Buffers.{flush_all}
use clianywhere_daemon.Daemon.{Daemon, to_p2p, to_relay, Step, ◌>>◌}

module _ {Aead : Type 0} where
  -- secureActive
  abbrev pub active_channel : Option (SecureChannel Aead) → Option (SecureChannel Aead)
  active_channel none = none
  active_channel (some c) = if c.active then some c else none

  -- json.Marshal and len, for the batcher
  abbrev pub marshal_length : Crypto Aead → Message → Option ℕ
  marshal_length k m = elim (k.marshal m) [ none ↦ none | some b ↦ some (length b) ]

module _ {Aead Server : Type 0} where
  -- The switch on the channel mode in the senders: the relay, unless P2P is selected.
  unfoldable pub dispatch : Message → Step Aead Server
  dispatch m d =
      if d.channel_mode == "p2p"
      then (if d.rtc_connected then (d, to_p2p m ∷ []) else (d, []))
      else if d.relay_connected
      then (d, to_relay m ∷ [])
      else (d, [])

  -- channelIsP2P
  abbrev pub channel_is_p2p : Daemon Aead Server → Bool
  channel_is_p2p d = d.channel_mode == "p2p"

  -- frameLimitForChannel
  unfoldable pub frame_limit_for_channel : Daemon Aead Server → ℕ
  frame_limit_for_channel d = if channel_is_p2p d then p2p_max_message_size else max_frame_size

  -- proxyPayloadLimitForChannel
  unfoldable pub proxy_payload_limit_for_channel : Daemon Aead Server → ℕ
  proxy_payload_limit_for_channel d =
      (if channel_is_p2p d then proxy_p2p_chunk else proxy_relay_chunk)
      - proxy_frame_header_size
      - secure_binary_overhead

  module _ (k : Crypto Aead) where
    -- wrapOutgoingJSON; nil is `none`.
    unfoldable pub wrap_outgoing_json :
        Message → Daemon Aead Server → Daemon Aead Server × Option Message
    wrap_outgoing_json m d = elim (active_channel d.secure) [
      | none ↦ (d, some m)
      | some c ↦
          if is_plaintext_exempt m.kind
          then (d, some m)
          else (let (c', r) = wrap_json k c m in
              let d' = record d { secure = some c' } in
              elim r [ ok w ↦ (d', some w) | err e ↦ (d', none) ])
    ]

    -- sendJSONDirect, and sendJSONWithBackpressure, which also waits.
    unfoldable pub send_json_direct : Message → Step Aead Server
    send_json_direct m d =
        let (d', w) = wrap_outgoing_json m d in
        elim w [ none ↦ (d', []) | some m' ↦ dispatch m' d' ]

    unfoldable pub send_all : List Message → Step Aead Server
    send_all [] d = (d, [])
    send_all (m ∷ ms) d = (send_json_direct m >> send_all ms) d

    -- outBatcher.FlushAll
    unfoldable pub flush : Step Aead Server
    flush d =
        let (bufs, ms) = flush_all (marshal_length k) d.bufs in
        send_all ms (record d { bufs = bufs })

    -- sendJSON
    unfoldable pub send_json : Message → Step Aead Server
    send_json m = flush >> send_json_direct m

    -- unwrapIncomingJSON; `none` is dropped.
    unfoldable pub unwrap_incoming_json :
        Message → Daemon Aead Server → Daemon Aead Server × Option Message
    unwrap_incoming_json m d =
        if not (is_encrypted_type m.kind) then (d, some m) else elim (active_channel d.secure) [
          | none ↦ (d, none)
          | some c ↦
              let (c', r) = unwrap_json k c m in
              let d' = record d { secure = some c' } in
              elim r [ ok inner ↦ (d', some inner) | err e ↦ (d', none) ]
        ]

    -- wrapOutgoingBinary
    unfoldable pub wrap_outgoing_binary : Bytes → Daemon Aead Server → Daemon Aead Server × Bytes
    wrap_outgoing_binary frame d = elim (active_channel d.secure) [
      | none ↦ (d, frame)
      | some c ↦ let (c', w) = wrap_binary k c frame in (record d { secure = some c' }, w)
    ]

    -- unwrapIncomingBinary
    unfoldable pub unwrap_incoming_binary :
        Bytes → Daemon Aead Server → Daemon Aead Server × Option Bytes
    unwrap_incoming_binary frame d =
        if not (is_empty frame) && nat_beq (first_byte frame) opcode_secure_binary
        then elim (active_channel d.secure) [
          | none ↦ (d, none)
          | some c ↦
              let (c', r) = unwrap_binary k c frame in
              let d' = record d { secure = some c' } in
              elim r [ ok plain ↦ (d', some plain) | err e ↦ (d', none) ]
        ]
        else elim (active_channel d.secure) [ none ↦ (d, some frame) | some c ↦ (d, none) ]
