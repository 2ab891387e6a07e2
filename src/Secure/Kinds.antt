-- ===== src/Secure/Kinds.antt =====
-- The message kinds of cmd/claw/securechannel.go: which envelope hides a kind, and which kinds stay
-- in the clear.
use clianywhere_daemon.Prelude.{
  Bool, true, false, ◌||◌, ◌≡◌, refl, List, [], ◌∷◌, String, string_key, ◌==◌, if◌then◌else◌,
}
use text.Mathlib.Text.{starts_with}

-- outerTypeFor
unfoldable pub outer_type_for : String → String
outer_type_for inner =
    if starts_with inner "file_"
      || starts_with inner "dir_"
      || inner == "file_list"
      || inner == "req_pending"
    then "enc_file"
    else if starts_with inner "proxy_"
    then "enc_proxy"
    else "enc_term"

-- isEncryptedType
unfoldable pub is_encrypted_type : String → Bool
is_encrypted_type t = t == "enc_term" || t == "enc_file" || t == "enc_proxy"

abbrev pub plaintext_exempt_types : List String
plaintext_exempt_types =
    "pake_start" ∷ "pake_reply" ∷ "sec_confirm" ∷ "sec_ok" ∷ "secure_ready" ∷ "sec_status"
    ∷ "sec_code_verify" ∷ "sec_code_ok" ∷ "sec_code_error" ∷ "channel_select" ∷ "channel_selected"
    ∷ "channel_failed" ∷ "peer_online" ∷ "peer_offline" ∷ "kicked" ∷ "ping" ∷ "pong"
    ∷ "session_info" ∷ []

abbrev pub one_of : List String → String → Bool
one_of [] t = false
one_of (k ∷ ks) t = t == k || one_of ks t

-- isPlaintextExempt
unfoldable pub is_plaintext_exempt : String → Bool
is_plaintext_exempt t = one_of plaintext_exempt_types t

envelopes :
    (a b : Bool)
    → is_encrypted_type (if a then "enc_file" else if b then "enc_proxy" else "enc_term") ≡ true
unfolding is_encrypted_type
envelopes true b = refl
envelopes false true = refl
envelopes false false = refl

-- What WrapJSON sends is an envelope that the peer's isEncryptedType knows.
pub is_encrypted_type-outer_type_for : (t : String) → is_encrypted_type (outer_type_for t) ≡ true
unfolding outer_type_for
is_encrypted_type-outer_type_for t = envelopes _ _
