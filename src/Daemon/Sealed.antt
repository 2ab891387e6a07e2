-- ===== src/Daemon/Sealed.antt =====
-- Steps of cmd/claw/daemon.go that send nothing in the clear while the encrypted channel is active.
use clianywhere_daemon.Prelude.{
  subst, string_key, ◌≡◌, refl, sym, ◌∙◌, Bool, true, false, ◌||◌, Option, none, some, List, [],
  ◌∷◌, String, All, All-append, Bool-cases, Option-cases, inl, inr, arith, if◌then◌else◌,
}
use mathlib.Core.Bool.{false≢true}
use clianywhere_daemon.Protocol.{Message}
use clianywhere_daemon.Secure.{Crypto, SecureChannel, wrap_json}
use clianywhere_daemon.Secure.Kinds.{is_encrypted_type, is_plaintext_exempt}
use clianywhere_daemon.Secure.Wrapping.{wrap_json-Wraps}
use clianywhere_daemon.Daemon.{Daemon, Effect, to_p2p, to_relay, Step, ◌>>◌, does, skip, sets}
use clianywhere_daemon.Daemon.Harmless.{Result-cases}
use clianywhere_daemon.Batcher.Buffers.Sealing.{flush_all_nothing}
use clianywhere_daemon.Daemon.Outgoing.{
  active_channel, dispatch, wrap_outgoing_json, send_json_direct, send_all, flush, send_json,
  marshal_length,
}

-- An envelope, or of a kind that is never wrapped; an effect that is no message is fine.
abbrev pub is_sealed_kind : String → Bool
is_sealed_kind t = is_encrypted_type t || is_plaintext_exempt t

abbrev pub is_sealed : Effect → Bool
is_sealed (to_p2p m) = is_sealed_kind m.kind
is_sealed (to_relay m) = is_sealed_kind m.kind
is_sealed e = true

abbrev pub IsSealed : Effect → Type 0
IsSealed e = is_sealed e ≡ true

abbrev pub is_some {ℓ} : {A : Type ℓ} → Option A → Bool
is_some none = false
is_some (some a) = true

pub still_active :
    {Aead : Type 0} (c : SecureChannel Aead)
    → c.active ≡ true
    → is_some (active_channel (some c)) ≡ true
still_active c h = rw h refl

pub active_cases :
    {Aead : Type 0} (o : Option (SecureChannel Aead))
    → is_some (active_channel o) ≡ true
    → (c : SecureChannel Aead) × (active_channel o ≡ some c) × (c.active ≡ true)
active_cases none h = absurd (false≢true h)
active_cases (some c) h = elim (Bool-cases c.active) [
  | inl t ↦ (c, rw t refl, t)
  | inr f ↦ absurd (false≢true (rw f at h))
]

module _ {Aead Server : Type 0} where
  -- secureActive
  unfoldable pub secure_active : Daemon Aead Server → Bool
  secure_active d = is_some (active_channel d.secure)

  abbrev pub Seals : Daemon Aead Server × List Effect → Type 0
  Seals r = All IsSealed r.1 × (secure_active r.0 ≡ true)

  abbrev pub IsSealing : Step Aead Server → Type 0
  IsSealing f = (d : Daemon Aead Server) → secure_active d ≡ true → Seals (f d)

  pub then-Seals : (f g : Step Aead Server) → IsSealing f → IsSealing g → IsSealing (f >> g)
  unfolding ◌>>◌
  then-Seals f g hf hg d a =
      let x = hf d a in
      let y = hg (f d).0 x.1 in (All-append IsSealed (f d).1 (g (f d).0).1 x.0 y.0, y.1)

  pub does-Seals : (e : Effect) → IsSealed e → IsSealing (does e)
  unfolding does
  does-Seals e h d a = ((h, tt), a)

  pub skip-Seals : IsSealing skip
  unfolding skip
  skip-Seals d a = (tt, a)

  pub sets-Seals :
      (f : Daemon Aead Server → Daemon Aead Server)
      → ((d : Daemon Aead Server) → (f d).secure ≡ d.secure)
      → IsSealing (sets f)
  unfolding sets secure_active
  sets-Seals f h d a = (tt, rw (h d) a)

  pub if-Seals :
      (b : Bool) (f g : Step Aead Server)
      → IsSealing f
      → IsSealing g
      → IsSealing (if b then f else g)
  if-Seals true f g hf hg = hf
  if-Seals false f g hf hg = hg

  dispatch-Seals :
      (m : Message) (d : Daemon Aead Server)
      → is_sealed_kind m.kind ≡ true
      → secure_active d ≡ true
      → Seals (dispatch m d)
  unfolding dispatch
  dispatch-Seals m d h a = ground arith

  module _ (k : Crypto Aead) where
    abbrev WrapsTo : Daemon Aead Server × Option Message → Type 0
    WrapsTo (d, none) = secure_active d ≡ true
    WrapsTo (d, some w) = (secure_active d ≡ true) × (is_sealed_kind w.kind ≡ true)

    wrap_active :
        (d : Daemon Aead Server) (c : SecureChannel Aead) (m : Message)
        → active_channel d.secure ≡ some c
        → c.active ≡ true
        → secure_active d ≡ true
        → WrapsTo (wrap_outgoing_json k m d)
    unfolding wrap_outgoing_json secure_active
    wrap_active d c m e t a =
        rw (e, wrap_outgoing_json)
          (elim (Bool-cases (is_plaintext_exempt m.kind)) [
            | inl exempt ↦ rw exempt (a, ground arith)
            | inr covered ↦
                let w = wrap_json-Wraps k c m in
                rw covered (elim (Result-cases (wrap_json k c m).1) [
                  | inl (o, h) ↦
                      rw (h, wrap_outgoing_json)
                        (still_active _ (w.0 ∙ t), ground (arith, rw h at w.1))
                  | inr (x, h) ↦ rw (h, wrap_outgoing_json) (still_active _ (w.0 ∙ t))
                ])
          ])

    wrap-WrapsTo :
        (m : Message) (d : Daemon Aead Server)
        → secure_active d ≡ true
        → WrapsTo (wrap_outgoing_json k m d)
    unfolding secure_active
    wrap-WrapsTo m d a = let (c, e, t) = active_cases d.secure a in wrap_active d c m e t a

    sent-Seals :
        (r : Daemon Aead Server × Option Message)
        → WrapsTo r
        → Seals (elim r.1 [ none ↦ (r.0, []) | some w ↦ dispatch w r.0 ])
    sent-Seals (d, none) h = (tt, h)
    sent-Seals (d, some w) h = dispatch-Seals w d h.1 h.0

    pub send_json_direct-Seals : (m : Message) → IsSealing (send_json_direct k m)
    unfolding send_json_direct
    send_json_direct-Seals m d a = sent-Seals (wrap_outgoing_json k m d) (wrap-WrapsTo m d a)

    pub send_all-Seals : (ms : List Message) → IsSealing (send_all k ms)
    unfolding send_all
    send_all-Seals [] d a = (tt, a)
    send_all-Seals (m ∷ ms) d a =
        then-Seals (send_json_direct k m) (send_all k ms) (send_json_direct-Seals m)
          (send_all-Seals ms) d a

    pub flush-Seals : IsSealing (flush k)
    unfolding flush secure_active
    flush-Seals d a = send_all-Seals _ (record d { bufs = _ }) a

    pub send_json-Seals : (m : Message) → IsSealing (send_json k m)
    unfolding send_json
    send_json-Seals m =
        then-Seals (flush k) (send_json_direct k m) flush-Seals (send_json_direct-Seals m)

    flush_nothing : (d : Daemon Aead Server) → d.bufs ≡ [] → All IsSealed (flush k d).1
    unfolding flush send_all
    flush_nothing d e = rw (e, flush_all_nothing (marshal_length k)) tt

    wrap_exempt :
        (m : Message) (d : Daemon Aead Server)
        → is_plaintext_exempt m.kind ≡ true
        → wrap_outgoing_json k m d ≡ (d, some m)
    unfolding wrap_outgoing_json
    wrap_exempt m d h = elim (Option-cases (active_channel d.secure)) [
      | inl e ↦ rw (e, wrap_outgoing_json) refl
      | inr (c, e) ↦ rw (e, wrap_outgoing_json) (rw h refl)
    ]

    dispatch_exempt :
        (m : Message) (d : Daemon Aead Server)
        → is_plaintext_exempt m.kind ≡ true
        → All IsSealed (dispatch m d).1
    unfolding dispatch
    dispatch_exempt m d h = ground arith

    abbrev deliver : Daemon Aead Server × Option Message → Daemon Aead Server × List Effect
    deliver r = elim r.1 [ none ↦ (r.0, []) | some w ↦ dispatch w r.0 ]

    direct_exempt :
        (m : Message) (d : Daemon Aead Server)
        → is_plaintext_exempt m.kind ≡ true
        → All IsSealed (send_json_direct k m d).1
    unfolding send_json_direct
    direct_exempt m d h =
        subst (λ r. All IsSealed (deliver r).1) (sym (wrap_exempt m d h)) (dispatch_exempt m d h)

    -- A message of an exempt kind may go out whatever the state, once nothing is buffered.
    pub send_json-exempt :
        (m : Message) (d : Daemon Aead Server)
        → d.bufs ≡ []
        → is_plaintext_exempt m.kind ≡ true
        → All IsSealed (send_json k m d).1
    unfolding send_json ◌>>◌
    send_json-exempt m d e h =
        All-append IsSealed (flush k d).1 (send_json_direct k m (flush k d).0).1 (flush_nothing d e)
          (direct_exempt m (flush k d).0 h)
