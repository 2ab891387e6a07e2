-- ===== src/Secure/Laws.antt =====
-- Two ends of a channel of cmd/claw/securechannel.go: what one wraps the other unwraps.
use clianywhere_daemon.Prelude.{
  ℕ, zero, suc, ◌+◌, ◌^◌, ◌<◌, ◌≤◌, ◌≡◌, refl, sym, ap, ◌∙◌, true, false, some, [], ◌∷◌, ◌++◌,
  length, length-append, take, drop, arith,
}
use clianywhere_daemon.Protocol.{Bytes, Message, secure_max_text_payload}
use clianywhere_daemon.Wire.{put_uint64, get_be, get_be-put_uint64, length-put_uint64}
use clianywhere_daemon.Secure.{
  secure_frame, Crypto, SecureChannel, ok, wrap_json, unwrap_json, wrap_binary, unwrap_binary,
  envelope, sent, received, make_nonce, is_replay, frame_seq, is_secure_frame, parse_inner, usable,
  first_byte,
}

-- What the channel relies on: cipher.AEAD opens under the nonce what it sealed, and a ciphertext is
-- longer than its plaintext by the tag; base64 decodes what it encoded.
pub record Laws {Aead : Type 0} (k : Crypto Aead) : Type 0 where
  pub opens : (g : Aead) (n p : Bytes) → k.open_sealed g n (k.seal g n p) ≡ some p
  pub tagged : (g : Aead) (n p : Bytes) → length (k.seal g n p) ≡ length p + 16
  pub decodes : (b : Bytes) → k.decode64 (k.encode64 b) ≡ some b

-- `a` sends to `b`: both are active with one cipher and one prefix for this direction, and `b` has
-- received nothing that `a` has not sent.
pub record IsPaired {Aead : Type 0} (a b : SecureChannel Aead) : Type 0 where
  pub cipher : Aead
  pub sends : usable a.active a.gcm_send ≡ some cipher
  pub receives : usable b.active b.gcm_recv ≡ some cipher
  pub prefix : a.send_dir ≡ b.recv_dir
  pub behind : b.has_recv ≡ true → b.recv_seq < a.send_seq

pub take_all : (xs ys : Bytes) (n : ℕ) → length xs ≡ n → take n (xs ++ ys) ≡ xs
take_all [] ys zero h = refl
take_all [] ys (suc n) h = absurd (omega arith)
take_all (x ∷ xs) ys zero h = absurd (omega arith)
take_all (x ∷ xs) ys (suc n) h = ap (◌∷◌ x) (take_all xs ys n (omega arith))

pub drop_all : (xs ys : Bytes) (n : ℕ) → length xs ≡ n → drop n (xs ++ ys) ≡ ys
drop_all [] ys zero h = refl
drop_all [] ys (suc n) h = absurd (omega arith)
drop_all (x ∷ xs) ys zero h = absurd (omega arith)
drop_all (x ∷ xs) ys (suc n) h = drop_all xs ys n (omega arith)

drop_past : (xs ys : Bytes) (y n : ℕ) → length xs ≡ n → drop (suc n) (xs ++ y ∷ ys) ≡ ys
drop_past [] ys y zero h = refl
drop_past [] ys y (suc n) h = absurd (omega arith)
drop_past (x ∷ xs) ys y zero h = absurd (omega arith)
drop_past (x ∷ xs) ys y (suc n) h = drop_past xs ys y n (omega arith)

pub frame_seq-secure_frame :
    {Aead : Type 0} (k : Crypto Aead) (a : SecureChannel Aead) (g : Aead) (frame : Bytes)
    → a.send_seq < 2 ^ 64
    → frame_seq (secure_frame k a g frame) ≡ a.send_seq
unfolding secure_frame
frame_seq-secure_frame k a g frame small =
    ap get_be (take_all (put_uint64 a.send_seq) _ 8 (length-put_uint64 a.send_seq))
    ∙ get_be-put_uint64 a.send_seq small

module _ {Aead : Type 0} (k : Crypto Aead) (laws : Laws k) where
  module _ (a b : SecureChannel Aead) (p : IsPaired a b) (small : a.send_seq + 1 < 2 ^ 64) where
    fresh : is_replay b a.send_seq ≡ false
    fresh = ground (arith, p.behind)

    opened :
        (plain : Bytes)
        → k.open_sealed p.cipher
            (make_nonce b.recv_dir a.send_seq)
            (k.seal p.cipher (make_nonce a.send_dir a.send_seq) plain)
          ≡ some plain
    opened plain =
        ap
          (λ (d : Bytes).
            k.open_sealed p.cipher (make_nonce d a.send_seq)
              (k.seal p.cipher (make_nonce a.send_dir a.send_seq) plain))
          (sym p.prefix)
        ∙ laws.opens p.cipher (make_nonce a.send_dir a.send_seq) plain

    -- Both ends stay paired if the frame arrives, and if it does not.
    pub arrives-IsPaired : IsPaired (sent a) (received b a.send_seq)
    arrives-IsPaired = record {
      cipher = p.cipher;
      sends = p.sends;
      receives = p.receives;
      prefix = p.prefix;
      behind = λ _. omega arith;
    }

    pub lost-IsPaired : IsPaired (sent a) b
    lost-IsPaired = record {
      cipher = p.cipher;
      sends = p.sends;
      receives = p.receives;
      prefix = p.prefix;
      behind = λ h. omega (arith, p.behind h);
    }

    pub wrap_json-ok :
        (inner : Message) (plain : Bytes)
        → k.marshal inner ≡ some plain
        → length plain ≤ secure_max_text_payload
        → wrap_json k a inner ≡ (sent a, ok (envelope k a p.cipher inner.kind plain))
    unfolding wrap_json
    wrap_json-ok inner plain m le = rw (m, wrap_json) (rw (p.sends, wrap_json) (ground arith))

    pub unwrap_json-envelope :
        (inner : Message) (plain : Bytes)
        → k.unmarshal plain ≡ some inner
        → unwrap_json k b (envelope k a p.cipher inner.kind plain)
          ≡ (received b a.send_seq, ok inner)
    unfolding unwrap_json envelope parse_inner
    unwrap_json-envelope inner plain u =
        rw (p.receives, unwrap_json)
          (rw (laws.decodes _, unwrap_json) (rw fresh (rw (opened plain, unwrap_json) (rw u))))

    pub wrap_binary-ok :
        (frame : Bytes) → wrap_binary k a frame ≡ (sent a, secure_frame k a p.cipher frame)
    unfolding wrap_binary
    wrap_binary-ok frame = rw (p.sends, wrap_binary)

    ciphertext :
        (frame : Bytes)
        → drop 10 (secure_frame k a p.cipher frame)
          ≡ k.seal p.cipher (make_nonce a.send_dir a.send_seq) frame
    unfolding secure_frame
    ciphertext frame = drop_past (put_uint64 a.send_seq) _ _ 8 (length-put_uint64 a.send_seq)

    secure_frame-is_secure :
        (frame : Bytes) → is_secure_frame (secure_frame k a p.cipher frame) ≡ true
    unfolding secure_frame
    secure_frame-is_secure frame = ground (
      arith,
      length-append (put_uint64 a.send_seq)
          (first_byte frame ∷ k.seal p.cipher (make_nonce a.send_dir a.send_seq) frame),
      length-put_uint64 a.send_seq,
      laws.tagged p.cipher (make_nonce a.send_dir a.send_seq) frame,
    )

    pub unwrap_binary-secure_frame :
        (frame : Bytes)
        → unwrap_binary k b (secure_frame k a p.cipher frame) ≡ (received b a.send_seq, ok frame)
    unfolding unwrap_binary
    unwrap_binary-secure_frame frame =
        rw (p.receives, unwrap_binary)
          (rw (secure_frame-is_secure frame) (
            rw (frame_seq-secure_frame k a p.cipher frame (omega arith)) (
              rw fresh (
                rw (ciphertext frame, opened frame, unwrap_binary)
                  (ap (λ (s : ℕ). (received b s, ok frame))
                    (frame_seq-secure_frame k a p.cipher frame (omega arith)))))))
