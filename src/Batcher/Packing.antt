-- ===== src/Batcher/Packing.antt =====
-- sendBatch of cmd/claw/output_batcher.go: what its loops do to the open message and to the
-- messages sent.
pub mod Sizes
pub mod Rounds
pub mod Segment
pub mod Results
use clianywhere_daemon.Prelude.{
  ℕ, zero, suc, ◌+◌, ◌-◌, ◌*◌, ◌/◌, ◌≤◌, ◌<◌, Bool, true, false, ◌||◌, Option, none, some, List, [],
  ◌∷◌, ◌++◌, map, ◌≡◌, refl, sym, ap, ◌∙◌, ◌≢◌, ◌⊎◌, inl, inr, arith, String, if◌then◌else◌, leb,
  length, take, drop, concat, All, append-nil, append_assoc, map-append, concat-append, All-append,
  length-append, length-take, Bool-cases,
}
use clianywhere_daemon.Protocol.{Bytes, Message}
use clianywhere_daemon.Batcher.{
  Open, OutEntry, accepts, emit, extend, fit_size, first_size, is_empty, next_n, output_message,
  output_marshal_free_floor, shrink, output_fits,
}

-- The bytes of a list of messages, in order.
abbrev pub payloads : List Message → Bytes
payloads ms = concat (map (λ (m : Message). m.payload) ms)

-- What the app sees of the writes after write `w`: a message moves its watermark from
-- `Seq - n` to `Seq`.
abbrev pub Covers : ℕ → List Message → ℕ → Type 0
Covers w [] w' = w ≡ w'
Covers w (m ∷ ms) w' = (m.seq ≡ w + m.outputs) × Covers m.seq ms w'

pub payloads-append : (xs ys : List Message) → payloads (xs ++ ys) ≡ payloads xs ++ payloads ys
payloads-append xs ys =
    rw map-append
      (concat-append (map (λ (m : Message). m.payload) xs) (map (λ (m : Message). m.payload) ys))

pub Covers-append :
    (w v u : ℕ) (xs ys : List Message) → Covers w xs v → Covers v ys u → Covers w (xs ++ ys) u
Covers-append w v u [] ys h k = rw h k
Covers-append w v u (x ∷ xs) ys h k = (h.0, Covers-append x.seq v u xs ys h.1 k)

pub append-is_empty : (p q : Bytes) → is_empty q ≡ false → is_empty (p ++ q) ≡ false
append-is_empty [] q h = h
append-is_empty (x ∷ p) q h = refl

-- Everything that the variables of sendBatch hold, in order.
abbrev pub bytes_of : Open → Bytes
bytes_of o = payloads o.sent ++ o.payload

-- `c` is the number of the last write that has a piece in the messages after write `w`.
pub record IsCovered (w : ℕ) (o : Open) (c : ℕ) : Type 0 where
  pub end : ℕ
  pub closed : Covers w o.sent end
  pub count : c ≡ end + o.n
  pub last : is_empty o.payload ≡ false → o.seq ≡ c
  pub none_open : is_empty o.payload ≡ true → o.n ≡ 0

module _ (marshal_len : Message → Option ℕ) (sid : String) where
  -- A message that sendBatch may send: an output message of the session with data, tried against
  -- the budget or below the size that cannot exceed it.
  abbrev pub IsSendable : Message → Type 0
  IsSendable m =
      (m ≡ output_message sid m.payload m.outputs m.seq)
      × (is_empty m.payload ≡ false)
      × (accepts marshal_len sid m.payload m.outputs m.seq ≡ true)

  pub record IsPacked (o : Open) : Type 0 where
    pub closed : All IsSendable o.sent
    pub opened : is_empty o.payload ≡ false → accepts marshal_len sid o.payload o.n o.seq ≡ true

  -- From `o` to `o'`, with the bytes `p` taken in.
  pub record Advances (w : ℕ) (o : Open) (c : ℕ) (p : Bytes) (o' : Open) (c' : ℕ) : Type 0 where
    pub bytes : bytes_of o' ≡ bytes_of o ++ p
    pub packed : IsPacked o → IsPacked o'
    pub covered : IsCovered w o c → IsCovered w o' c'

  pub Advances-trans :
      {w c c' c'' : ℕ} {o o' o'' : Open} {p q : Bytes}
      → Advances w o c p o' c'
      → Advances w o' c' q o'' c''
      → Advances w o c (p ++ q) o'' c''
  Advances-trans {o} {p} {q} a b = record {
    bytes = b.bytes ∙ ap (λ (x : Bytes). x ++ q) a.bytes ∙ append_assoc (bytes_of o) p q;
    packed = λ h. b.packed (a.packed h);
    covered = λ h. b.covered (a.covered h);
  }

  emit_full :
      (w c : ℕ) (o : Open)
      → is_empty o.payload ≡ false
      → Advances w o c [] (emit marshal_len sid o) c
  unfolding emit
  emit_full w c o h =
      rw (h, emit)
        (record {
          bytes =
              append-nil _
              ∙ payloads-append o.sent (output_message sid o.payload o.n o.seq ∷ [])
              ∙ ap (◌++◌ (payloads o.sent)) (append-nil o.payload)
              ∙ sym (append-nil (bytes_of o));
          packed = λ k. record {
            closed = All-append IsSendable o.sent _ k.closed ((refl, h, k.opened h), tt);
            opened = λ e. cc;
          };
          covered = λ k. record {
            end = o.seq;
            closed = Covers-append w k.end o.seq o.sent _ k.closed (k.last h ∙ k.count, refl);
            count = omega (arith, k.last h);
            last = λ e. cc;
            none_open = λ e. refl;
          };
        })

  pub emit-Advances : (w c : ℕ) (o : Open) → Advances w o c [] (emit marshal_len sid o) c
  unfolding emit
  emit-Advances w c o = elim (Bool-cases (is_empty o.payload)) [
    | inl e ↦
        rw (e, emit)
          (record { bytes = sym (append-nil (bytes_of o)); packed = λ k. k; covered = λ k. k })
    | inr e ↦ emit_full w c o e
  ]

  -- A piece that passes the test goes into the open message.
  pub extend-Advances :
      (w c : ℕ) (o : Open) (p : Bytes) (first : Bool) (seq : ℕ)
      → is_empty p ≡ false
      → accepts marshal_len sid (o.payload ++ p) (next_n first o.n) seq ≡ true
      → seq ≡ next_n first c
      → Advances w o c p (extend o p (next_n first o.n) seq) seq
  extend-Advances w c o p first seq ne fits e = record {
    bytes = sym (append_assoc (payloads o.sent) o.payload p);
    packed = λ k. record { closed = k.closed; opened = λ _. fits };
    covered = λ k. record {
      end = k.end;
      closed = k.closed;
      count = ground (arith, k.count);
      last = λ _. refl;
      none_open = λ h. cc (append-is_empty o.payload p ne);
    };
  }
