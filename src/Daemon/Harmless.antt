-- ===== src/Daemon/Harmless.antt =====
-- Steps of cmd/claw/daemon.go and cmd/claw/secure_handshake.go that make no request to a manager.
use clianywhere_daemon.Prelude.{
  ◌||◌, ◌⊎◌, string_key, ◌==◌, if◌then◌else◌, ◌≡◌, refl, sym, ◌∙◌, Bool, true, false, List, [], ◌∷◌,
  ◌++◌, All, All-append, Option-cases, inl, inr, arith,
}
use clianywhere_daemon.Protocol.{Message}
use clianywhere_daemon.Secure.{err, SecureError, ok, Result, Crypto}
use clianywhere_daemon.Daemon.{
  decrement, sets, ◌>>◌, does, skip, Daemon, Effect, requests, exits, Step,
}
use clianywhere_daemon.Daemon.Outgoing.{
  marshal_length, send_json, send_json_direct, send_all, flush, dispatch, wrap_outgoing_json,
}
use clianywhere_daemon.Daemon.Handshake.{not_positive, reset_secure}
use clianywhere_daemon.Daemon.Handlers.{
  select_p2p, channel_text, handle_peer_offline, handle_kicked, handle_channel_select,
}
use clianywhere_daemon.Batcher.Buffers.{flush_all}
use mathlib.Core.Bool.{false≢true}

-- Neither a request to a manager nor session content for a local client.
abbrev pub is_request : Effect → Bool
is_request (requests r) = true
is_request e = false

abbrev pub NoRequest : Effect → Type 0
NoRequest e = is_request e ≡ false

-- The daemon exits because of wrong tags.
abbrev pub is_lock : Effect → Bool
is_lock (exits reason) = reason == "sec_code_locked"
is_lock e = false

abbrev pub is_locked : List Effect → Bool
is_locked [] = false
is_locked (e ∷ es) = is_lock e || is_locked es

pub is_locked-append : (xs ys : List Effect) → is_locked ys ≡ true → is_locked (xs ++ ys) ≡ true
is_locked-append [] ys h = h
is_locked-append (x ∷ xs) ys h = ground (arith, is_locked-append xs ys h)

pub is_locked-append_left :
    (xs ys : List Effect) → is_locked xs ≡ true → is_locked (xs ++ ys) ≡ true
is_locked-append_left [] ys h = absurd (false≢true h)
is_locked-append_left (x ∷ xs) ys h = ground (arith, is_locked-append_left xs ys)

pub Result-cases {ℓ} :
    {A : Type ℓ} (r : Result A) → ((a : A) × (r ≡ ok a)) ⊎ ((e : SecureError) × (r ≡ err e))
Result-cases (ok a) = inl (a, refl)
Result-cases (err e) = inr (e, refl)

module _ {Aead Server : Type 0} where
  -- The step makes no request, does not take the client for verified, and leaves
  -- its attempts and whether there is a code.
  pub record Harmless (d : Daemon Aead Server) (r : Daemon Aead Server × List Effect) : Type 0 where
    pub quiet : All NoRequest r.1
    pub kept : r.0.sec_code_verified ≡ true → d.sec_code_verified ≡ true
    pub budget : r.0.sec_code_attempts_left ≡ d.sec_code_attempts_left
    pub coded : r.0.sec_code_enabled ≡ d.sec_code_enabled

  -- The step of a wrong tag: where there is a code it costs an attempt, and the last one locks.
  pub record Rejects (d : Daemon Aead Server) (r : Daemon Aead Server × List Effect) : Type 0 where
    pub quiet : All NoRequest r.1
    pub kept : r.0.sec_code_verified ≡ true → d.sec_code_verified ≡ true
    pub coded : r.0.sec_code_enabled ≡ d.sec_code_enabled
    pub spent :
        d.sec_code_enabled ≡ true → r.0.sec_code_attempts_left ≡ decrement d.sec_code_attempts_left
    pub locks :
        d.sec_code_enabled ≡ true
        → not_positive (decrement d.sec_code_attempts_left) ≡ true
        → is_locked r.1 ≡ true

  abbrev pub IsHarmless : Step Aead Server → Type 0
  IsHarmless f = (d : Daemon Aead Server) → Harmless d (f d)

  pub then-Harmless : (f g : Step Aead Server) → IsHarmless f → IsHarmless g → IsHarmless (f >> g)
  unfolding ◌>>◌
  then-Harmless f g hf hg d =
      let a = hf d in
      let b = hg (f d).0 in
      record {
        quiet = All-append NoRequest (f d).1 (g (f d).0).1 a.quiet b.quiet;
        kept = λ e. a.kept (b.kept e);
        budget = b.budget ∙ a.budget;
        coded = b.coded ∙ a.coded;
      }

  pub does-Harmless : (e : Effect) → NoRequest e → IsHarmless (does e)
  unfolding does
  does-Harmless e h d = record { quiet = (h, tt); kept = λ x. x; budget = refl; coded = refl }

  pub then-is_locked :
      (f g : Step Aead Server) (d : Daemon Aead Server)
      → ((d' : Daemon Aead Server) → is_locked (g d').1 ≡ true)
      → is_locked ((f >> g) d).1 ≡ true
  unfolding ◌>>◌
  then-is_locked f g d h = is_locked-append (f d).1 (g (f d).0).1 (h (f d).0)

  pub does-is_locked :
      (e : Effect) → is_lock e ≡ true → (d : Daemon Aead Server) → is_locked (does e d).1 ≡ true
  unfolding does
  does-is_locked e h d = ground arith

  pub skip-Harmless : IsHarmless skip
  unfolding skip
  skip-Harmless d = record { quiet = tt; kept = λ x. x; budget = refl; coded = refl }

  pub dispatch-Harmless : (m : Message) → IsHarmless (dispatch m)
  unfolding dispatch
  dispatch-Harmless m d = ground arith

  module _ (k : Crypto Aead) where
    wrap_keeps :
        (m : Message) (d : Daemon Aead Server)
        → ((wrap_outgoing_json k m d).0.sec_code_verified ≡ d.sec_code_verified)
          × ((wrap_outgoing_json k m d).0.sec_code_attempts_left ≡ d.sec_code_attempts_left)
          × ((wrap_outgoing_json k m d).0.sec_code_enabled ≡ d.sec_code_enabled)
    unfolding wrap_outgoing_json
    wrap_keeps m d = ground arith

    pub send_json_direct-Harmless : (m : Message) → IsHarmless (send_json_direct k m)
    unfolding send_json_direct
    send_json_direct-Harmless m d = elim (Option-cases (wrap_outgoing_json k m d).1) [
      | inl e ↦
          rw (e, send_json_direct)
            (record {
              quiet = tt;
              kept = λ x. sym (wrap_keeps m d).0 ∙ x;
              budget = (wrap_keeps m d).1;
              coded = (wrap_keeps m d).2;
            })
      | inr (w, e) ↦
          let sent = dispatch-Harmless w (wrap_outgoing_json k m d).0 in
          rw (e, send_json_direct)
            (record {
              quiet = sent.quiet;
              kept = λ x. sym (wrap_keeps m d).0 ∙ sent.kept x;
              budget = sent.budget ∙ (wrap_keeps m d).1;
              coded = sent.coded ∙ (wrap_keeps m d).2;
            })
    ]

    pub send_all-Harmless : (ms : List Message) → IsHarmless (send_all k ms)
    unfolding send_all skip
    send_all-Harmless [] d = skip-Harmless d
    send_all-Harmless (m ∷ ms) d =
        then-Harmless (send_json_direct k m) (send_all k ms) (send_json_direct-Harmless m)
          (send_all-Harmless ms) d

    pub flush-Harmless : IsHarmless (flush k)
    unfolding flush
    flush-Harmless d =
        let sent =
          send_all-Harmless (flush_all (marshal_length k) d.bufs).1
            (record d { bufs = (flush_all (marshal_length k) d.bufs).0 }) in
        record { quiet = sent.quiet; kept = sent.kept; budget = sent.budget; coded = sent.coded }

    pub send_json-Harmless : (m : Message) → IsHarmless (send_json k m)
    unfolding send_json
    send_json-Harmless m =
        then-Harmless (flush k) (send_json_direct k m) flush-Harmless (send_json_direct-Harmless m)

    pub sets-Harmless :
        (f : Daemon Aead Server → Daemon Aead Server)
        → ((d : Daemon Aead Server) → (f d).sec_code_verified ≡ true → d.sec_code_verified ≡ true)
        → ((d : Daemon Aead Server)
            → ((f d).sec_code_attempts_left ≡ d.sec_code_attempts_left)
              × ((f d).sec_code_enabled ≡ d.sec_code_enabled))
        → IsHarmless (sets f)
    unfolding sets
    sets-Harmless f h q d = record { quiet = tt; kept = h d; budget = (q d).0; coded = (q d).1 }

    pub if-Harmless :
        (b : Bool) (f g : Step Aead Server)
        → IsHarmless f
        → IsHarmless g
        → IsHarmless (if b then f else g)
    if-Harmless true f g hf hg = hf
    if-Harmless false f g hf hg = hg

    pub handle_kicked-Harmless : (msg : Message) → IsHarmless (handle_kicked k msg)
    unfolding handle_kicked
    handle_kicked-Harmless msg =
        if-Harmless (msg.reason == "daemon_replaced") _ _ (does-Harmless _ refl) (
          then-Harmless _ _ (does-Harmless _ refl) (
            then-Harmless _ _ (does-Harmless _ refl) (
              then-Harmless _ _ (does-Harmless _ refl)
                (sets-Harmless _ (λ d x. x) (λ d. (refl, refl))))))

    pub handle_peer_offline-Harmless : IsHarmless (handle_peer_offline k)
    unfolding handle_peer_offline reset_secure
    handle_peer_offline-Harmless d = ground arith

    pub select_p2p-Harmless : IsHarmless (select_p2p k)
    unfolding reset_secure
    select_p2p-Harmless d = record {
      quiet = tt;
      kept = λ e. absurd (false≢true e);
      budget = refl;
      coded = refl;
    }

    pub handle_channel_select-Harmless : (msg : Message) → IsHarmless (handle_channel_select k msg)
    unfolding handle_channel_select reset_secure
    handle_channel_select-Harmless msg =
        let p2p = channel_text msg.payload == "p2p" in
        if-Harmless _ _ _
          (then-Harmless _ _ flush-Harmless (
            then-Harmless _ _ (if-Harmless p2p _ _ select_p2p-Harmless skip-Harmless) (
              then-Harmless _ _ (sets-Harmless _ (λ d x. x) (λ d. (refl, refl))) (
                then-Harmless _ _ (send_json-Harmless _)
                  (if-Harmless p2p _ _ (does-Harmless _ refl) skip-Harmless)))))
          skip-Harmless
