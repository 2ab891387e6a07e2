-- ===== src/Daemon/Tests.antt =====
-- Witnesses for the daemon, over a cipher that only puts a tag of zeros in front, and a key agreement
-- whose key is the password.
use clianywhere_daemon.Prelude.{
  length-replicate, length, All, ◌+◌, ◌≡◌, refl, ◌⊎◌, ◌<◌, ◌≤◌, true, none, some, [], ◌∷◌, ◌++◌,
  drop, replicate, arith, string_key,
}
use clianywhere_daemon.Protocol.{Bytes, Message, empty_message}
use clianywhere_daemon.Secure.Kinds.{is_encrypted_type}
use clianywhere_daemon.Secure.{dir_c2s, dir_s2c, Crypto}
use clianywhere_daemon.Daemon.{ℕ, local_output, Daemon, Env, Spake, Pake, new_daemon}
use clianywhere_daemon.Daemon.Handlers.{handle_push_pause, send_output, same_bytes}
use clianywhere_daemon.Daemon.Handshake.{confirmed}
use clianywhere_daemon.Daemon.Outgoing.{unwrap_incoming_json}
use clianywhere_daemon.Daemon.Dispatch.{handle_message}
use clianywhere_daemon.Daemon.Guarded.{IsGuarded, RightInner, handle_message-IsGuarded}
use clianywhere_daemon.Daemon.Budget.{IsGuessing}
use clianywhere_daemon.Daemon.Lockout.{run, guesses, AllWrong, run_spends}
use clianywhere_daemon.Daemon.Sealed.{IsSealed, secure_active}
use clianywhere_daemon.Daemon.Confidential.{handle_message-IsSealed}
use clianywhere_daemon.Daemon.Muting.{push_pause-silences}
use clianywhere_daemon.Daemon.Harmless.{is_locked}

abbrev open_crypto : Crypto Bytes
open_crypto = record {
  new_gcm = λ key. some key;
  seal = λ g n p. replicate 16 0 ++ p;
  open_sealed = λ g n c. some (drop 16 c);
  encode64 = λ b. b;
  decode64 = λ b. some b;
  marshal = λ m. some m.payload;
  unmarshal = λ b. some (record empty_message { kind = "input"; payload = b });
}

abbrev open_spake : Spake Bytes Bytes
open_spake = record {
  new_server = λ password random. some password;
  set_peer_share = λ server pa. some server;
  share = λ server. server;
  finish = λ server sid access_key. some (server, sid);
  key_s2c = λ keys. keys;
  key_c2s = λ keys. keys;
  tag_a = λ keys transcript. keys;
  tag_b = λ keys transcript. keys;
  verify_tag = same_bytes;
}

abbrev outside : Env
outside = record {
  security_code = 49 ∷ 50 ∷ 51 ∷ 52 ∷ 53 ∷ 54 ∷ [];
  random = [];
  now = 5;
  create_error = none;
  request_error = λ id. none;
  stage_error = λ path. none;
  history = λ sid cols rows. ([], 0);
}

abbrev pending : Pake Bytes
pending = record { server = 49 ∷ []; sid = replicate 16 1; access_key = "key" }

abbrev waiting : Daemon Bytes Bytes
waiting = record (new_daemon "key" true) { relay_connected = true; pake = some pending }

abbrev wrong_tag : Message
wrong_tag = record empty_message { kind = "sec_confirm"; tag_a = replicate 16 7 }

abbrev typed : Message
typed = record empty_message { kind = "input"; session_id = "s"; payload = 108 ∷ 115 ∷ [] }

handle_message-IsGuarded_example :
    IsGuarded open_crypto open_spake waiting
      (RightInner open_crypto open_spake waiting typed)
      (handle_message open_crypto open_spake outside typed waiting)
unfolding new_daemon
handle_message-IsGuarded_example =
    handle_message-IsGuarded open_crypto open_spake outside typed waiting refl

waiting-IsGuessing : IsGuessing open_crypto open_spake waiting
unfolding new_daemon
waiting-IsGuessing = record {
  coded = refl;
  unverified = refl;
  some_left = omega arith;
  at_most = omega arith;
}

wrong_tag-none : confirmed open_crypto open_spake pending wrong_tag ≡ none
unfolding confirmed
wrong_tag-none = refl

not_right :
    (m : Message) (p : Pake Bytes) (kt : Bytes × Bytes)
    → some wrong_tag ≡ some m
    → some pending ≡ some p
    → ¬ (confirmed open_crypto open_spake p m ≡ some kt)
not_right m p kt e waits right = cc wrong_tag-none

wrong_tag-AllWrong : AllWrong open_crypto open_spake ((outside, wrong_tag) ∷ []) waiting
unfolding new_daemon unwrap_incoming_json confirmed is_encrypted_type
wrong_tag-AllWrong =
    (λ t. let (m, e, (p, kt, waits, right)) = t in not_right m p kt e waits right, tt)

run_spends_example :
    (11
        ≡ guesses open_crypto open_spake ((outside, wrong_tag) ∷ []) waiting
          + (run open_crypto open_spake
              ((outside, wrong_tag) ∷ [])
              waiting).0.sec_code_attempts_left)
      × (0
          < (run open_crypto open_spake
              ((outside, wrong_tag) ∷ [])
              waiting).0.sec_code_attempts_left)
    ⊎ ((11 ≤ guesses open_crypto open_spake ((outside, wrong_tag) ∷ []) waiting)
        × (is_locked (run open_crypto open_spake ((outside, wrong_tag) ∷ []) waiting).1 ≡ true))
unfolding new_daemon
run_spends_example =
    run_spends open_crypto open_spake ((outside, wrong_tag) ∷ []) waiting waiting-IsGuessing
      wrong_tag-AllWrong

abbrev connected : Daemon Bytes Bytes
connected = record waiting {
  sec_code_verified = true;
  secure = some (record {
    active = true;
    send_key = [];
    recv_key = [];
    send_dir = dir_s2c;
    recv_dir = dir_c2s;
    gcm_send = some [];
    gcm_recv = some [];
    send_seq = 4;
    recv_seq = 2;
    has_recv = true;
  });
  subscribed = ("s", true) ∷ [];
}

-- json.Marshal with each byte escaped, as it does with ESC.
abbrev escaped : Bytes → Bytes
escaped [] = []
escaped (b ∷ bs) = b'\\' ∷ b'u' ∷ b'0' ∷ b'0' ∷ b'1' ∷ b'b' ∷ escaped bs

abbrev dense_crypto : Crypto Bytes
dense_crypto = record open_crypto { marshal = λ m. some (escaped m.payload) }

-- Output of any length
output : (n : ℕ) → (b : Bytes) × (length b ≡ n)
output n = (replicate n 27, length-replicate n 27)

abbrev long_output : Bytes
long_output = (output 5000).0

handle_message-IsSealed_example :
    All IsSealed (handle_message open_crypto open_spake outside typed connected).1
    × All IsSealed (send_output open_crypto 0 "s" (36 ∷ 32 ∷ []) 9 connected).1
unfolding secure_active
handle_message-IsSealed_example =
    handle_message-IsSealed open_crypto open_spake outside typed 0 "s" (36 ∷ 32 ∷ []) 9 connected
      refl

abbrev away : Message
away = record empty_message { kind = "push_pause"; session_id = "s" }

push_pause-silences_example :
    (send_output open_crypto 0 "s" (36 ∷ []) 9 (handle_push_pause open_crypto away connected).0).1
    ≡ local_output "s" (36 ∷ []) ∷ []
push_pause-silences_example = push_pause-silences open_crypto away 0 (36 ∷ []) 9 connected refl
