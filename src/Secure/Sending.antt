-- ===== src/Secure/Sending.antt =====
-- Nonces of cmd/claw/securechannel.go: WrapJSON and WrapBinary never use one twice.
use clianywhere_daemon.Prelude.{
  append_assoc, length-append, length-take, ℕ, suc, ◌+◌, ◌^◌, ◌<◌, ◌≤◌, ◌≡◌, ◌≢◌, refl, sym, ap,
  ◌∙◌, Option, none, some, List, [], ◌∷◌, ◌++◌, ltb, length, take, drop, replicate, All, arith,
  Bool-cases, Option-cases, inl, inr, ◌⊎◌,
}
use clianywhere_daemon.Protocol.{opcode_secure_binary, Bytes, Message, secure_max_text_payload}
use clianywhere_daemon.Wire.{length-put_uint64, put_uint64, get_be, get_be-put_uint64}
use clianywhere_daemon.Secure.{
  first_byte, Crypto, SecureChannel, Result, ok, err, wrap_json, wrap_binary, usable, make_nonce,
  sent, next_seq, envelope, secure_frame,
}
use clianywhere_daemon.Secure.Exchange.{Item, text, binary}
use clianywhere_daemon.Secure.Laws.{take_all, drop_all}

length-take4 : (d : Bytes) → length (take 4 (d ++ replicate 4 0)) ≡ 4
length-take4 d = length-take 4 (d ++ replicate 4 0) ∙ omega (arith, length-append d (replicate 4 0))

-- For one prefix, two numbers give two nonces.
make_nonce-injective :
    (dir : Bytes) (s t : ℕ) → s < 2 ^ 64 → t < 2 ^ 64 → make_nonce dir s ≡ make_nonce dir t → s ≡ t
unfolding make_nonce
make_nonce-injective dir s t hs ht e =
    sym (get_be-put_uint64 s hs) ∙ ap get_be tails ∙ get_be-put_uint64 t ht
  where
    head : Bytes
    head = take 4 (dir ++ replicate 4 0)

    tails : put_uint64 s ≡ put_uint64 t
    tails =
        sym (drop_all head (put_uint64 s) 4 (length-take4 dir))
        ∙ ap (drop 4) e
        ∙ drop_all head (put_uint64 t) 4 (length-take4 dir)

module _ {Aead : Type 0} (k : Crypto Aead) where
  -- The same cipher, with the nonce that Seal is called with shown in front of the ciphertext, and
  -- base64 left out.
  abbrev pub shown : Crypto Aead
  shown = record k { seal = λ g n p. n ++ k.seal g n p; encode64 = λ b. b }

  abbrev text_nonce : Result Message → Option Bytes
  text_nonce (ok o) = some (take 12 o.payload)
  text_nonce (err e) = none

  abbrev frame_nonce : Bytes → Option Bytes
  frame_nonce [] = none
  frame_nonce (b ∷ bs) = some (take 12 (drop 10 (b ∷ bs)))

  -- The channel after a send, and the nonce that Seal was called with, if it was.
  pub send : SecureChannel Aead → Item → SecureChannel Aead × Option Bytes
  send c (text m) = let (c', r) = wrap_json shown c m in (c', text_nonce r)
  send c (binary f) = let (c', w) = wrap_binary shown c f in (c', frame_nonce w)

  abbrev cons_some : Option Bytes → List Bytes → List Bytes
  cons_some none ns = ns
  cons_some (some n) ns = n ∷ ns

  pub nonces : SecureChannel Aead → List Item → List Bytes
  nonces c [] = []
  nonces c (i ∷ is) = let (c', n) = send c i in cons_some n (nonces c' is)

  abbrev pub Distinct : List Bytes → Type 0
  Distinct [] = Unit
  Distinct (n ∷ ns) = All (λ m. n ≢ m) ns × Distinct ns

  -- A send seals nothing and changes nothing, or seals under the nonce of the next number.
  abbrev Sent : SecureChannel Aead → SecureChannel Aead × Option Bytes → Type 0
  Sent c r = (r ≡ (c, none)) ⊎ (r ≡ (sent c, some (make_nonce c.send_dir c.send_seq)))

  length-make_nonce : (dir : Bytes) (n : ℕ) → length (make_nonce dir n) ≡ 12
  unfolding make_nonce
  length-make_nonce dir n =
      length-append (take 4 (dir ++ replicate 4 0)) (put_uint64 n)
      ∙ omega (arith, length-take4 dir, length-put_uint64 n)

  shown_nonce :
      (dir : Bytes) (n : ℕ) (ct : Bytes) → take 12 (make_nonce dir n ++ ct) ≡ make_nonce dir n
  shown_nonce dir n ct = take_all (make_nonce dir n) ct 12 (length-make_nonce dir n)

  send_text : (c : SecureChannel Aead) (m : Message) → Sent c (send c (text m))
  unfolding send wrap_json envelope
  send_text c m = elim (Option-cases (k.marshal m)) [
    | inl h ↦ rw (h, wrap_json) (inl refl)
    | inr (plain, h) ↦
        rw (h, wrap_json)
          (elim (Option-cases (usable c.active c.gcm_send)) [
            | inl e ↦ rw (e, wrap_json) (inl refl)
            | inr (g, e) ↦
                rw (e, wrap_json)
                  (elim (Bool-cases (ltb secure_max_text_payload (length plain))) [
                    | inl big ↦ rw big (inl refl)
                    | inr fits ↦ rw fits (
                        inr (
                          ap (λ (n : Bytes). (sent c, some n))
                            (shown_nonce c.send_dir c.send_seq _)))
                  ])
          ])
  ]

  drop_header : (op last : ℕ) (s ct : Bytes) → length s ≡ 8 → drop 10 (op ∷ (s ++ last ∷ ct)) ≡ ct
  drop_header op last s ct h =
      ap (drop 9) (sym (append_assoc s (last ∷ []) ct))
      ∙ drop_all (s ++ last ∷ []) ct 9 (length-append s (last ∷ []) ∙ omega (arith, h))

  frame_nonce-secure_frame :
      (c : SecureChannel Aead) (g : Aead) (f : Bytes)
      → frame_nonce (secure_frame shown c g f) ≡ some (make_nonce c.send_dir c.send_seq)
  unfolding secure_frame
  frame_nonce-secure_frame c g f =
      ap (λ (b : Bytes). some (take 12 b))
        (drop_header opcode_secure_binary (first_byte f) (put_uint64 c.send_seq) _
          (length-put_uint64 c.send_seq))
      ∙ ap some (shown_nonce c.send_dir c.send_seq _)

  send_binary : (c : SecureChannel Aead) (f : Bytes) → Sent c (send c (binary f))
  unfolding send wrap_binary
  send_binary c f = elim (Option-cases (usable c.active c.gcm_send)) [
    | inl e ↦ rw (e, wrap_binary) (inl refl)
    | inr (g, e) ↦
        rw (e, wrap_binary)
          (inr (ap (λ (n : Option Bytes). (sent c, n)) (frame_nonce-secure_frame c g f)))
  ]

  send-Sent : (c : SecureChannel Aead) (i : Item) → Sent c (send c i)
  send-Sent c (text m) = send_text c m
  send-Sent c (binary f) = send_binary c f

  -- Every nonce in the list belongs to a number from `s` on.
  abbrev From : Bytes → ℕ → Bytes → Type 0
  From dir s n = (t : ℕ) × (s ≤ t) × (t < 2 ^ 64) × (n ≡ make_nonce dir t)

  From-weaken :
      (dir : Bytes) (s s' : ℕ) (ns : List Bytes)
      → s ≤ s'
      → All (From dir s') ns
      → All (From dir s) ns
  From-weaken dir s s' [] le h = tt
  From-weaken dir s s' (n ∷ ns) le h =
      let (t, a, b, e) = h.0 in ((t, omega arith, b, e), From-weaken dir s s' ns le h.1)

  From-ne :
      (dir : Bytes) (s : ℕ) (ns : List Bytes)
      → s < 2 ^ 64
      → All (From dir (suc s)) ns
      → All (λ m. make_nonce dir s ≢ m) ns
  From-ne dir s [] small h = tt
  From-ne dir s (n ∷ ns) small h =
      let (t, a, b, e) = h.0 in
      (
        λ q. absurd (omega (arith, make_nonce-injective dir s t small b (q ∙ e))),
        From-ne dir s ns small h.1,
      )

  Fresh : SecureChannel Aead → List Bytes → Type 0
  Fresh c ns = All (From c.send_dir c.send_seq) ns × Distinct ns

  Fresh-cons :
      (c : SecureChannel Aead) (r : SecureChannel Aead × Option Bytes) (ns : List Bytes)
      → c.send_seq + 1 < 2 ^ 64
      → Sent c r
      → Fresh r.0 ns
      → Fresh c (cons_some r.1 ns)
  unfolding Fresh
  Fresh-cons c r ns small (inl e) h = rw e (rw e at h)
  Fresh-cons c r ns small (inr e) h =
      let later : All (From c.send_dir (suc c.send_seq)) ns =
        From-weaken c.send_dir (suc c.send_seq) (next_seq c.send_seq) ns (omega arith)
          (rw e at h).0 in
      rw e (
        (
          (c.send_seq, omega arith, omega arith, refl),
          From-weaken c.send_dir c.send_seq (suc c.send_seq) ns (omega arith) later,
        ),
        (From-ne c.send_dir c.send_seq ns (omega arith) later, (rw e at h).1),
      )

  send_seq-Sent :
      (c : SecureChannel Aead) (r : SecureChannel Aead × Option Bytes)
      → Sent c r
      → r.0.send_seq ≤ c.send_seq + 1
  send_seq-Sent c r (inl e) = rw e (omega arith)
  send_seq-Sent c r (inr e) = rw e (omega arith)

  nonces-Fresh :
      (c : SecureChannel Aead) (is : List Item)
      → c.send_seq + length is < 2 ^ 64
      → Fresh c (nonces c is)
  unfolding Fresh nonces
  nonces-Fresh c [] small = (tt, tt)
  nonces-Fresh c (i ∷ is) small =
      Fresh-cons c (send c i) _ (omega arith) (send-Sent c i)
        (nonces-Fresh (send c i).0 is (omega (arith, send_seq-Sent c (send c i) (send-Sent c i))))

  -- As long as fewer than 2^64 frames are sent, WrapJSON and WrapBinary never call Seal twice with
  -- the same nonce, whatever is sent, and whichever of the sends fail.
  pub nonces-Distinct :
      (c : SecureChannel Aead) (is : List Item)
      → c.send_seq + length is < 2 ^ 64
      → Distinct (nonces c is)
  unfolding Fresh
  nonces-Distinct c is small = (nonces-Fresh c is small).1
