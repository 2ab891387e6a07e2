-- ===== src/Secure.antt =====
-- cmd/claw/securechannel.go: the encrypted channel that a handshake sets up.
--
-- crypto/aes and cipher.AEAD, encoding/base64 and encoding/json are the parameter `Crypto`; the
-- theorems that need their documented behaviour take it as `Laws`. A method returns the new channel
-- beside its result; it holds the mutex from its first test to its return.
pub mod Kinds
pub mod Laws
pub mod Exchange
pub mod Receiving
pub mod Sending
pub mod Wrapping
mod Tests
use clianywhere_daemon.Prelude.{
  ℕ, zero, suc, ◌+◌, ◌%◌, ◌^◌, ◌≡◌, Bool, true, false, not, ◌&&◌, ◌||◌, Option, none, some, List,
  [], ◌∷◌, ◌++◌, String, if◌then◌else◌, leb, ltb, nat_beq, length, take, drop, get_or, replicate,
}
use clianywhere_daemon.Protocol.{
  Bytes, Message, empty_message, secure_max_text_payload, opcode_secure_binary,
}
use clianywhere_daemon.Wire.{put_uint64, get_be}
use clianywhere_daemon.Secure.Kinds.{outer_type_for}

pub data SecureError : Type 0 where
  inactive replay decrypt_failed too_large marshal_failed bad_key : SecureError

pub data Result {ℓ} (A : Type ℓ) : Type ℓ where
  ok : A → Result A
  err : SecureError → Result A

-- `Aead` is the type cipher.AEAD.
pub record Crypto (Aead : Type 0) : Type 0 where
  -- aes.NewCipher and cipher.NewGCM
  pub new_gcm : Bytes → Option Aead
  pub seal : Aead → Bytes → Bytes → Bytes
  pub open_sealed : Aead → Bytes → Bytes → Option Bytes
  pub encode64 : Bytes → Bytes
  pub decode64 : Bytes → Option Bytes
  pub marshal : Message → Option Bytes
  pub unmarshal : Bytes → Option Message

-- 'C', '2', 'S', 0 and 'S', '2', 'C', 0
abbrev pub dir_c2s : Bytes
dir_c2s = 67 ∷ 50 ∷ 83 ∷ 0 ∷ []

abbrev pub dir_s2c : Bytes
dir_s2c = 83 ∷ 50 ∷ 67 ∷ 0 ∷ []

-- A nil cipher is `none`.
pub record SecureChannel (Aead : Type 0) : Type 0 where
  pub active : Bool
  pub send_key : Bytes
  pub recv_key : Bytes
  pub send_dir : Bytes
  pub recv_dir : Bytes
  pub gcm_send : Option Aead
  pub gcm_recv : Option Aead
  pub send_seq : ℕ
  pub recv_seq : ℕ
  pub has_recv : Bool

-- Twelve bytes: the prefix is copied first, and the number overwrites the last eight.
pub make_nonce : Bytes → ℕ → Bytes
make_nonce dir seq = take 4 (dir ++ replicate 4 0) ++ put_uint64 seq

-- `uint64` increment.
abbrev pub next_seq : ℕ → ℕ
next_seq seq = (seq + 1) % 2 ^ 64

abbrev pub zero_key : Bytes
zero_key = replicate 32 0

-- frame[0], or the zero byte that `make` leaves for an empty frame.
abbrev pub first_byte : Bytes → ℕ
first_byte [] = 0
first_byte (b ∷ _) = b

module _ {Aead : Type 0} where
  -- Reset
  pub reset : SecureChannel Aead → SecureChannel Aead
  reset c = record c {
    active = false;
    send_seq = 0;
    recv_seq = 0;
    has_recv = false;
    send_key = zero_key;
    recv_key = zero_key;
    gcm_send = none;
    gcm_recv = none;
  }

  -- `!c.active || c.gcmSend == nil`
  abbrev pub usable : Bool → Option Aead → Option Aead
  usable false g = none
  usable true g = g

  -- `c.hasRecv && seq <= c.recvSeq`
  abbrev pub is_replay : SecureChannel Aead → ℕ → Bool
  is_replay c seq = c.has_recv && leb seq c.recv_seq

  abbrev pub received : SecureChannel Aead → ℕ → SecureChannel Aead
  received c seq = record c { recv_seq = seq; has_recv = true }

  abbrev pub sent : SecureChannel Aead → SecureChannel Aead
  sent c = record c { send_seq = next_seq c.send_seq }

-- `json.Unmarshal(plain, &inner)`
pub parse_inner : Option Message → Result Message
parse_inner none = err decrypt_failed
parse_inner (some m) = ok m

-- frame[1:9]
abbrev pub frame_seq : Bytes → ℕ
frame_seq frame = get_be (take 8 (drop 1 frame))

abbrev pub is_secure_frame : Bytes → Bool
is_secure_frame frame = leb 11 (length frame) && nat_beq (first_byte frame) opcode_secure_binary

module _ {Aead : Type 0} (k : Crypto Aead) where
  open k use {new_gcm, seal, open_sealed, encode64, decode64, marshal, unmarshal}

  pub new_secure_channel : Bytes → Bytes → Bytes → Bytes → Result (SecureChannel Aead)
  new_secure_channel send_key recv_key send_dir recv_dir = elim (new_gcm send_key) [
    | none ↦ err bad_key
    | some s ↦ elim (new_gcm recv_key) [
      | none ↦ err bad_key
      | some r ↦ ok (record {
        active = true;
        send_key = send_key;
        recv_key = recv_key;
        send_dir = send_dir;
        recv_dir = recv_dir;
        gcm_send = some s;
        gcm_recv = some r;
        send_seq = 0;
        recv_seq = 0;
        has_recv = false;
      })
    ]
  ]

  -- The envelope of a plaintext under the number `seq`.
  pub envelope : SecureChannel Aead → Aead → String → Bytes → Message
  envelope c g kind plain = record empty_message {
    kind = outer_type_for kind;
    seq = c.send_seq;
    payload = encode64 (seal g (make_nonce c.send_dir c.send_seq) plain);
  }

  -- WrapJSON
  pub wrap_json : SecureChannel Aead → Message → SecureChannel Aead × Result Message
  wrap_json c inner = elim (marshal inner) [
    | none ↦ (c, err marshal_failed)
    | some plain ↦ elim (usable c.active c.gcm_send) [
      | none ↦ (c, err inactive)
      | some g ↦
          if ltb secure_max_text_payload (length plain)
          then (c, err too_large)
          else (sent c, ok (envelope c g inner.kind plain))
    ]
  ]

  -- UnwrapJSON. The number counts as received even if the plaintext is no Message.
  pub unwrap_json : SecureChannel Aead → Message → SecureChannel Aead × Result Message
  unwrap_json c outer = elim (usable c.active c.gcm_recv) [
    | none ↦ (c, err inactive)
    | some g ↦ elim (decode64 outer.payload) [
      | none ↦ (c, err decrypt_failed)
      | some ct ↦
          if is_replay c outer.seq
          then (c, err replay)
          else elim (open_sealed g (make_nonce c.recv_dir outer.seq) ct) [
            | none ↦ (c, err decrypt_failed)
            | some plain ↦ (received c outer.seq, parse_inner (unmarshal plain))
          ]
    ]
  ]

  -- [0x07][8B seq][1B innerOpcode][ciphertext]
  unfoldable pub secure_frame : SecureChannel Aead → Aead → Bytes → Bytes
  secure_frame c g frame =
      opcode_secure_binary
      ∷ (put_uint64 c.send_seq
          ++ first_byte frame ∷ seal g (make_nonce c.send_dir c.send_seq) frame)

  -- WrapBinary; nil is the empty list.
  unfoldable pub wrap_binary : SecureChannel Aead → Bytes → SecureChannel Aead × Bytes
  wrap_binary c frame = elim (usable c.active c.gcm_send) [
    | none ↦ (c, [])
    | some g ↦ (sent c, secure_frame c g frame)
  ]

  -- UnwrapBinary
  pub unwrap_binary : SecureChannel Aead → Bytes → SecureChannel Aead × Result Bytes
  unwrap_binary c frame = elim (usable c.active c.gcm_recv) [
    | none ↦ (c, err inactive)
    | some g ↦
        if is_secure_frame frame
        then if is_replay c (frame_seq frame)
          then (c, err replay)
          else elim (open_sealed g (make_nonce c.recv_dir (frame_seq frame)) (drop 10 frame)) [
            | none ↦ (c, err decrypt_failed)
            | some plain ↦ (received c (frame_seq frame), ok plain)
          ]
        else (c, err decrypt_failed)
  ]
