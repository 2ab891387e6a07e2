-- ===== src/Secure/Tests.antt =====
-- Witnesses for the encrypted channel, over a cipher that only puts a tag of zeros in front.
use clianywhere_daemon.Prelude.{
  ℕ, ◌≡◌, refl, Bool, true, false, some, List, [], ◌∷◌, ◌++◌, drop, replicate, length-append, arith,
  ◌∙◌,
}
use mathlib.Core.Bool.{false≢true}
use clianywhere_daemon.Protocol.{Bytes, Message, empty_message}
use clianywhere_daemon.Secure.{
  Crypto, SecureChannel, ok, dir_c2s, dir_s2c, reset, zero_key, wrap_json, wrap_binary,
}
use clianywhere_daemon.Secure.Laws.{Laws, IsPaired}
use clianywhere_daemon.Secure.Exchange.{Item, text, binary, exchange, exchange-arriving}
use clianywhere_daemon.Secure.Receiving.{
  Incoming, accepted, accepted-Increasing, Increasing, reset_lem, is_ok,
}
use clianywhere_daemon.Secure.Sending.{nonces, nonces-Distinct, Distinct}

abbrev tag : Bytes
tag = replicate 16 0

abbrev input : Bytes → Message
input b = record empty_message { kind = "input"; payload = b }

abbrev plain_crypto : Crypto Bytes
plain_crypto = record {
  new_gcm = λ key. some key;
  seal = λ g n p. tag ++ p;
  open_sealed = λ g n c. some (drop 16 c);
  encode64 = λ b. b;
  decode64 = λ b. some b;
  marshal = λ m. some m.payload;
  unmarshal = λ b. some (input b);
}

plain_crypto-Laws : Laws plain_crypto
plain_crypto-Laws = record {
  opens = λ g n p. refl;
  tagged = λ g n p. length-append tag p ∙ omega arith;
  decodes = λ b. refl;
}

abbrev key : Bytes
key = replicate 32 5

abbrev end : Bytes → Bytes → SecureChannel Bytes
end send recv = record {
  active = true;
  send_key = key;
  recv_key = key;
  send_dir = send;
  recv_dir = recv;
  gcm_send = some key;
  gcm_recv = some key;
  send_seq = 0;
  recv_seq = 0;
  has_recv = false;
}

abbrev app_end : SecureChannel Bytes
app_end = end dir_c2s dir_s2c

abbrev daemon_end : SecureChannel Bytes
daemon_end = end dir_s2c dir_c2s

ends-IsPaired : IsPaired app_end daemon_end
ends-IsPaired = record {
  cipher = key;
  sends = refl;
  receives = refl;
  prefix = refl;
  behind = λ h. absurd (false≢true h);
}

abbrev conversation : List (Item × Bool)
conversation =
    (text (input (108 ∷ 115 ∷ [])), true)
    ∷ (binary (5 ∷ 0 ∷ 0 ∷ 0 ∷ 1 ∷ 9 ∷ []), false)
    ∷ (binary (5 ∷ 0 ∷ 0 ∷ 0 ∷ 1 ∷ 7 ∷ []), true)
    ∷ []

exchange-arriving_example :
    exchange plain_crypto app_end daemon_end conversation
    ≡ ok (text (input (108 ∷ 115 ∷ []))) ∷ ok (binary (5 ∷ 0 ∷ 0 ∷ 0 ∷ 1 ∷ 7 ∷ [])) ∷ []
exchange-arriving_example =
    exchange-arriving plain_crypto plain_crypto-Laws app_end daemon_end conversation ends-IsPaired
      (omega arith) ((108 ∷ 115 ∷ [], refl, omega arith, refl), (tt, (tt, tt)))

abbrev numbered : ℕ → Incoming
numbered n = Incoming.envelope (record (input (tag ++ 7 ∷ [])) { seq = n })

abbrev replayed : List Incoming
replayed = numbered 1 ∷ numbered 4 ∷ numbered 4 ∷ numbered 2 ∷ numbered 9 ∷ []

accepted-Increasing_example :
    Increasing plain_crypto false 0 (accepted plain_crypto daemon_end replayed)
accepted-Increasing_example = accepted-Increasing plain_crypto daemon_end replayed

reset_lem_example :
    (is_ok (wrap_json plain_crypto (reset daemon_end) (input [])).1 ≡ false)
    × ((wrap_binary plain_crypto (reset daemon_end) (1 ∷ [])).1 ≡ [])
    × (accepted plain_crypto (reset daemon_end) replayed ≡ [])
    × ((reset daemon_end).send_key ≡ zero_key)
    × ((reset daemon_end).recv_key ≡ zero_key)
reset_lem_example = reset_lem plain_crypto daemon_end (input []) (1 ∷ []) replayed

nonces-Distinct_example :
    Distinct plain_crypto (nonces plain_crypto app_end (text (input []) ∷ binary (1 ∷ []) ∷ []))
nonces-Distinct_example =
    nonces-Distinct plain_crypto app_end (text (input []) ∷ binary (1 ∷ []) ∷ []) (omega arith)
