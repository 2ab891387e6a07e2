-- ===== src/Batcher/Buffers/Cuts.antt =====
-- The cuts of tick, FlushAll and SealAt in cmd/claw/output_batcher.go take and leave whole writes.
use clianywhere_daemon.Prelude.{
  ℕ, zero, suc, ◌<◌, ◌≤◌, Bool, false, List, [], ◌∷◌, ◌++◌, ◌≡◌, refl, sym, ap, ◌∙◌, inl, inr,
  nat_beq, nat_beq_iff, length, take, drop, Bool-cases, arith, append-nil, append_assoc,
  take-append-drop,
}
use clianywhere_daemon.Batcher.{OutEntry}
use clianywhere_daemon.Batcher.Packing.Segment.{Follows, last_seq, entry_bytes}
use clianywhere_daemon.Batcher.Buffers.{OutBuf, is_nil, due, cut_due, cut_all, cut_seal, split_at}
use clianywhere_daemon.Batcher.Buffers.Stream.{IsBuf, IsCut}

pub entry_bytes-append :
    (xs ys : List OutEntry) → entry_bytes (xs ++ ys) ≡ entry_bytes xs ++ entry_bytes ys
entry_bytes-append [] ys = refl
entry_bytes-append (e ∷ xs) ys =
    ap (◌++◌ e.bytes) (entry_bytes-append xs ys)
    ∙ sym (append_assoc e.bytes (entry_bytes xs) (entry_bytes ys))

pub Follows-take : (n c : ℕ) (es : List OutEntry) → Follows c es → Follows c (take n es)
Follows-take zero c es h = tt
Follows-take (suc n) c [] h = tt
Follows-take (suc n) c (e ∷ es) h = (h.0, h.1, Follows-take n e.seq es h.2)

Follows-drop :
    (n c : ℕ) (es : List OutEntry) → Follows c es → Follows (last_seq c (take n es)) (drop n es)
Follows-drop zero c es h = h
Follows-drop (suc n) c [] h = tt
Follows-drop (suc n) c (e ∷ es) h = Follows-drop n e.seq es h.2

last_seq-drop :
    (n c : ℕ) (es : List OutEntry) → last_seq (last_seq c (take n es)) (drop n es) ≡ last_seq c es
last_seq-drop zero c es = refl
last_seq-drop (suc n) c [] = refl
last_seq-drop (suc n) c (e ∷ es) = last_seq-drop n e.seq es

is_nil-drop : (n : ℕ) (es : List OutEntry) → n < length es → is_nil (drop n es) ≡ false
is_nil-drop n [] h = absurd (omega arith)
is_nil-drop zero (e ∷ es) h = refl
is_nil-drop (suc n) (e ∷ es) h = is_nil-drop n es (omega arith)

split_at-le : (h : ℕ) (es : List OutEntry) → split_at h es ≤ length es
unfolding split_at
split_at-le h [] = omega arith
split_at-le h (e ∷ es) = ground (arith, split_at-le h es)

take_all : (es : List OutEntry) → take (length es) es ≡ es
take_all [] = refl
take_all (e ∷ es) = ap (◌∷◌ e) (take_all es)

pub cut_due-IsCut :
    (interactive : Bool) (now : ℕ) (buf : OutBuf)
    → IsBuf buf
    → IsCut buf (cut_due interactive now buf)
unfolding cut_due
cut_due-IsCut interactive now buf v = elim (Bool-cases (due interactive now buf)) [
  | inl h ↦ rw h (record { whole = append-nil _; job = (v.start, v.segment); kept = tt })
  | inr h ↦ rw h (record { whole = refl; job = tt; kept = v })
]

pub cut_all-IsCut : (buf : OutBuf) → IsBuf buf → IsCut buf (cut_all buf)
unfolding cut_all
cut_all-IsCut buf v =
    rw v.filled (record { whole = append-nil _; job = (v.start, v.segment); kept = tt })

pub cut_seal-IsCut : (h : ℕ) (buf : OutBuf) → IsBuf buf → IsCut buf (cut_seal h buf)
unfolding cut_seal
cut_seal-IsCut h buf v = elim (Bool-cases (nat_beq n 0)) [
  | inl z ↦ rw z (record { whole = refl; job = tt; kept = v })
  | inr z ↦ rw z (elim (Bool-cases (nat_beq n (length buf.entries))) [
    | inl y ↦ rw y (record {
      whole =
          append-nil _
          ∙ ap entry_bytes
              (ap (λ k. take k buf.entries) ((nat_beq_iff n _).0 y) ∙ take_all buf.entries);
      job = (v.start, Follows-take n v.start buf.entries v.segment);
      kept = tt;
    })
    | inr y ↦ rw y (record {
      whole =
          sym (entry_bytes-append (take n buf.entries) (drop n buf.entries))
          ∙ ap entry_bytes (take-append-drop n buf.entries);
      job = (v.start, Follows-take n v.start buf.entries v.segment);
      kept = record {
        start = last_seq v.start (take n buf.entries);
        segment = Follows-drop n v.start buf.entries v.segment;
        latest = last_seq-drop n v.start buf.entries ∙ v.latest;
        raw = refl;
        bound = v.bound;
        filled = is_nil-drop n buf.entries (ground (arith, split_at-le h buf.entries));
      };
    })
  ])
]
  where
    n : ℕ
    n = split_at h buf.entries
