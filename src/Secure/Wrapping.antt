-- ===== src/Secure/Wrapping.antt =====
-- What WrapJSON of cmd/claw/securechannel.go leaves of the channel, and the kind of its envelope.
use clianywhere_daemon.Prelude.{
  ◌<◌, some, length-append, ◌≤◌, ◌+◌, ◌∷◌, arith, ◌≡◌, refl, Bool, true, ltb, length, Option-cases,
  Bool-cases, inl, inr,
}
use clianywhere_daemon.Protocol.{secure_binary_overhead, Bytes, Message, secure_max_text_payload}
use clianywhere_daemon.Secure.{
  too_large, inactive, SecureError, first_byte, make_nonce, secure_frame, wrap_binary, unwrap_json,
  Crypto, SecureChannel, Result, ok, err, wrap_json, envelope, usable, new_secure_channel,
}
use clianywhere_daemon.Wire.{put_uint64, length-put_uint64}
use clianywhere_daemon.Secure.Laws.{Laws}
use clianywhere_daemon.Secure.Kinds.{is_encrypted_type, is_encrypted_type-outer_type_for}

module _ {Aead : Type 0} (k : Crypto Aead) where
  abbrev pub IsEnvelope : Result Message → Type 0
  IsEnvelope (ok w) = is_encrypted_type w.kind ≡ true
  IsEnvelope (err e) = Unit

  abbrev pub Wraps : SecureChannel Aead → SecureChannel Aead × Result Message → Type 0
  Wraps c r = (r.0.active ≡ c.active) × IsEnvelope r.1

  pub wrap_json-Wraps : (c : SecureChannel Aead) (m : Message) → Wraps c (wrap_json k c m)
  unfolding wrap_json envelope
  wrap_json-Wraps c m = elim (Option-cases (k.marshal m)) [
    | inl h ↦ rw (h, wrap_json) (refl, tt)
    | inr (plain, h) ↦
        rw (h, wrap_json)
          (elim (Option-cases (usable c.active c.gcm_send)) [
            | inl e ↦ rw (e, wrap_json) (refl, tt)
            | inr (g, e) ↦
                rw (e, wrap_json)
                  (elim (Bool-cases (ltb secure_max_text_payload (length plain))) [
                    | inl big ↦ rw big (refl, tt)
                    | inr fits ↦ rw fits (refl, is_encrypted_type-outer_type_for m.kind)
                  ])
          ])
  ]

  -- A text that is too long is refused.
  pub wrap_json_long :
      (c : SecureChannel Aead) (m : Message) (plain : Bytes)
      → k.marshal m ≡ some plain
      → secure_max_text_payload < length plain
      → (e : SecureError) × (wrap_json k c m ≡ (c, err e))
  unfolding wrap_json
  wrap_json_long c m plain h long = elim (Option-cases (usable c.active c.gcm_send)) [
    | inl u ↦ (inactive, rw (h, wrap_json) (rw (u, wrap_json) refl))
    | inr (g, u) ↦
        let big : ltb secure_max_text_payload (length plain) ≡ true = ground (arith, long) in
        (too_large, rw (h, wrap_json) (rw (u, wrap_json) (rw big refl)))
  ]

  abbrev pub is_active : Result (SecureChannel Aead) → Bool
  is_active (ok c) = c.active
  is_active (err e) = true

  pub new_secure_channel_active :
      (sk rk sd rd : Bytes) → is_active (new_secure_channel k sk rk sd rd) ≡ true
  unfolding new_secure_channel
  new_secure_channel_active sk rk sd rd = elim (Option-cases (k.new_gcm sk)) [
    | inl e ↦ rw (e, new_secure_channel) refl
    | inr (g, e) ↦
        rw (e, new_secure_channel)
          (elim (Option-cases (k.new_gcm rk)) [
            | inl e ↦ rw (e, new_secure_channel) refl
            | inr (h, e) ↦ rw (e, new_secure_channel) refl
          ])
  ]

  pub unwrap_json_active :
      (c : SecureChannel Aead) (m : Message) → (unwrap_json k c m).0.active ≡ c.active
  unfolding unwrap_json
  unwrap_json_active c m = ground arith

  -- WrapBinary adds the header and the tag; a frame that it cannot seal becomes empty.
  pub length-wrap_binary :
      Laws k
      → (c : SecureChannel Aead) (frame : Bytes)
      → length (wrap_binary k c frame).1 ≤ length frame + secure_binary_overhead
  unfolding wrap_binary secure_frame
  length-wrap_binary laws c frame = elim (Option-cases (usable c.active c.gcm_send)) [
    | inl e ↦ rw (e, wrap_binary) (omega arith)
    | inr (g, e) ↦
        let nonce : Bytes = make_nonce c.send_dir c.send_seq in
        rw (e, wrap_binary)
          (omega (
            arith,
            length-append (put_uint64 c.send_seq) (first_byte frame ∷ k.seal g nonce frame),
            length-put_uint64 c.send_seq,
            laws.tagged g nonce frame,
          ))
  ]
