-- ===== src/Secure/Receiving.antt =====
-- Replay protection of cmd/claw/securechannel.go: UnwrapJSON and UnwrapBinary over one counter.
use clianywhere_daemon.Prelude.{
  drop, ℕ, ◌<◌, ◌≡◌, refl, Bool, true, false, none, List, [], ◌∷◌, if◌then◌else◌, arith, Bool-cases,
  Option-cases, inl, inr, ◌⊎◌,
}
use clianywhere_daemon.Protocol.{Bytes, Message}
use clianywhere_daemon.Secure.{
  zero_key, Crypto, SecureChannel, Result, ok, err, unwrap_json, unwrap_binary, received, is_replay,
  frame_seq, is_secure_frame, usable, make_nonce, parse_inner, reset, wrap_json, wrap_binary,
}

-- What arrives, with any contents: the relay may repeat, reorder, drop or make up frames.
pub data Incoming : Type 0 where
  envelope : Message → Incoming
  frame : Bytes → Incoming

-- The sequence number that it claims.
abbrev pub number : Incoming → ℕ
number (envelope m) = m.seq
number (frame f) = frame_seq f

abbrev pub is_ok {ℓ} : {A : Type ℓ} → Result A → Bool
is_ok (ok a) = true
is_ok (err e) = false

module _ {Aead : Type 0} (k : Crypto Aead) where
  -- The channel afterwards, and whether something was handed on.
  pub receive : SecureChannel Aead → Incoming → SecureChannel Aead × Bool
  receive c (envelope m) = let (c', r) = unwrap_json k c m in (c', is_ok r)
  receive c (frame f) = let (c', r) = unwrap_binary k c f in (c', is_ok r)

  -- The numbers of what is handed on.
  pub accepted : SecureChannel Aead → List Incoming → List ℕ
  accepted c [] = []
  accepted c (i ∷ is) =
      let (c', good) = receive c i in
      let rest = accepted c' is in if good then number i ∷ rest else rest

  -- Nothing is handed on and nothing changes, or the number is new and is now the last.
  abbrev pub Received : SecureChannel Aead → ℕ → SecureChannel Aead × Bool → Type 0
  Received c n r =
      (r ≡ (c, false)) ⊎ ((good : Bool) × (is_replay c n ≡ false) × (r ≡ (received c n, good)))

  receive-envelope :
      (c : SecureChannel Aead) (m : Message) → Received c m.seq (receive c (envelope m))
  unfolding receive unwrap_json
  receive-envelope c m = elim (Option-cases (usable c.active c.gcm_recv)) [
    | inl e ↦ rw (e, unwrap_json) (inl refl)
    | inr (g, e) ↦
        rw (e, unwrap_json)
          (elim (Option-cases (k.decode64 m.payload)) [
            | inl d ↦ rw (d, unwrap_json) (inl refl)
            | inr (ct, d) ↦
                rw (d, unwrap_json)
                  (elim (Bool-cases (is_replay c m.seq)) [
                    | inl old ↦ rw old (inl refl)
                    | inr new ↦
                        rw new
                          (elim (Option-cases (k.open_sealed g (make_nonce c.recv_dir m.seq) ct)) [
                            | inl o ↦ rw (o, unwrap_json) (inl refl)
                            | inr (plain, o) ↦
                                rw (o, unwrap_json)
                                  (inr (is_ok (parse_inner (k.unmarshal plain)), refl, refl))
                          ])
                  ])
          ])
  ]

  receive-frame :
      (c : SecureChannel Aead) (f : Bytes) → Received c (frame_seq f) (receive c (frame f))
  unfolding receive unwrap_binary
  receive-frame c f = elim (Option-cases (usable c.active c.gcm_recv)) [
    | inl e ↦ rw (e, unwrap_binary) (inl refl)
    | inr (g, e) ↦
        rw (e, unwrap_binary)
          (elim (Bool-cases (is_secure_frame f)) [
            | inr d ↦ rw d (inl refl)
            | inl d ↦ rw d (elim (Bool-cases (is_replay c (frame_seq f))) [
              | inl old ↦ rw old (inl refl)
              | inr new ↦
                  rw new
                    (elim (Option-cases
                      (k.open_sealed g (make_nonce c.recv_dir (frame_seq f)) (drop 10 f))) [
                        | inl o ↦ rw (o, unwrap_binary) (inl refl)
                        | inr (plain, o) ↦ rw (o, unwrap_binary) (inr (true, refl, refl))
                      ])
            ])
          ])
  ]

  receive-Received : (c : SecureChannel Aead) (i : Incoming) → Received c (number i) (receive c i)
  receive-Received c (envelope m) = receive-envelope c m
  receive-Received c (frame f) = receive-frame c f

  -- Greater than the last number received, if there is one, and increasing.
  abbrev pub Increasing : Bool → ℕ → List ℕ → Type 0
  Increasing has last [] = Unit
  Increasing has last (n ∷ ns) = (has ≡ true → last < n) × Increasing true n ns

  Increasing-weaken :
      (has : Bool) (last n : ℕ) (ns : List ℕ)
      → (has ≡ true → last < n)
      → Increasing true n ns
      → Increasing has last ns
  Increasing-weaken has last n [] h i = tt
  Increasing-weaken has last n (x ∷ ns) h i = (λ e. omega (arith, h e, i.0 refl), i.1)

  new_number :
      (c : SecureChannel Aead) (n : ℕ) → is_replay c n ≡ false → c.has_recv ≡ true → c.recv_seq < n
  new_number c n h e = ground arith

  accepted-cons :
      (c : SecureChannel Aead) (i : Incoming) (r : SecureChannel Aead × Bool) (rest : List ℕ)
      → Received c (number i) r
      → Increasing r.0.has_recv r.0.recv_seq rest
      → Increasing c.has_recv c.recv_seq (if r.1 then number i ∷ rest else rest)
  accepted-cons c i r rest (inl e) h = rw e (rw e at h)
  accepted-cons c i r rest (inr (true, new, e)) h = rw e (new_number c (number i) new, rw e at h)
  accepted-cons c i r rest (inr (false, new, e)) h = rw e (
      Increasing-weaken c.has_recv c.recv_seq (number i) rest (new_number c (number i) new)
        (rw e at h))

  -- Whatever arrives, in whatever order and however often, as envelopes or as binary frames: the
  -- numbers of what the channel hands on increase strictly, from above the last one received
  -- before. So nothing is handed on twice, nor anything older than what was handed on.
  pub accepted-Increasing :
      (c : SecureChannel Aead) (is : List Incoming)
      → Increasing c.has_recv c.recv_seq (accepted c is)
  unfolding accepted
  accepted-Increasing c [] = tt
  accepted-Increasing c (i ∷ is) =
      accepted-cons c i (receive c i) _ (receive-Received c i)
        (accepted-Increasing (receive c i).0 is)

  wrap_json-inactive :
      (c : SecureChannel Aead) (m : Message)
      → usable c.active c.gcm_send ≡ none
      → is_ok (wrap_json k c m).1 ≡ false
  unfolding wrap_json
  wrap_json-inactive c m e = elim (Option-cases (k.marshal m)) [
    | inl h ↦ rw (h, wrap_json)
    | inr (plain, h) ↦ rw (h, wrap_json) (rw (e, wrap_json))
  ]

  receive_inactive :
      (c : SecureChannel Aead) (i : Incoming)
      → usable c.active c.gcm_recv ≡ none
      → receive c i ≡ (c, false)
  unfolding receive unwrap_json unwrap_binary
  receive_inactive c (envelope m) e = rw (e, unwrap_json)
  receive_inactive c (frame f) e = rw (e, unwrap_binary)

  accepted_inactive :
      (c : SecureChannel Aead) (is : List Incoming)
      → usable c.active c.gcm_recv ≡ none
      → accepted c is ≡ []
  unfolding accepted
  accepted_inactive c [] e = refl
  accepted_inactive c (i ∷ is) e = rw (receive_inactive c i e) (accepted_inactive c is e)

  -- After Reset no message is wrapped, no frame is sealed, nothing that arrives is handed on, and
  -- both keys are zero.
  pub reset_lem :
      (c : SecureChannel Aead) (m : Message) (f : Bytes) (is : List Incoming)
      → (is_ok (wrap_json k (reset c) m).1 ≡ false)
        × ((wrap_binary k (reset c) f).1 ≡ [])
        × (accepted (reset c) is ≡ [])
        × ((reset c).send_key ≡ zero_key)
        × ((reset c).recv_key ≡ zero_key)
  unfolding reset wrap_binary
  reset_lem c m f is =
      (wrap_json-inactive (reset c) m refl, refl, accepted_inactive (reset c) is refl, refl, refl)
