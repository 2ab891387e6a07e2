-- ===== src/Batcher/Buffers/Sealing.antt =====
-- What SealAt, tick and FlushAll of cmd/claw/output_batcher.go send and leave.
use clianywhere_daemon.Prelude.{
  ◌++◌, ap, sym, ap, ◌∙◌, ◌⊎◌, ℕ, zero, suc, ◌<◌, ◌≤◌, Bool, false, Option, none, some, List, [],
  ◌∷◌, ◌≡◌, ◌≢◌, refl, inl, inr, ltb, nat_beq, nat_beq_iff, length, take, drop, All, All-append,
  Bool-cases, if◌then◌else◌, ◌-◌, subst, arith, String,
}
use clianywhere_daemon.Protocol.{Message}
use clianywhere_daemon.Batcher.{
  emit, pack_entries, true, send_batch?, OutEntry, send_batch, output_raw_cap,
}
use clianywhere_daemon.Batcher.Packing.Segment.{Follows, last_seq}
use clianywhere_daemon.Batcher.Packing.Results.{send_batch_lem, Covers-Within, Within}
use clianywhere_daemon.Batcher.Buffers.{
  output_idle_flush, output_interactive_flush, OutBuf, Bufs, Job, is_nil, sweep, push_job, keep_buf,
  send_jobs, run_sweep, seal_at, tick, flush_all, cut_seal, cut_due, cut_all, split_at, due,
}
use clianywhere_daemon.Batcher.Buffers.Stream.{IsBuf, IsBufs}
use clianywhere_daemon.Batcher.Buffers.Cuts.{Follows-take}

-- The entries that SealAt takes were written up to `h`, and those that it leaves after `h`.
abbrev Upto : ℕ → OutEntry → Type 0
Upto h e = e.seq ≤ h

abbrev pub After : ℕ → OutEntry → Type 0
After h e = h < e.seq

Follows-After : (h c : ℕ) (es : List OutEntry) → h ≤ c → Follows c es → All (After h) es
Follows-After h c [] le f = tt
Follows-After h c (e ∷ es) le f =
    (omega (arith, f.0), Follows-After h e.seq es (omega (arith, f.0)) f.2)

split_at-Upto : (h : ℕ) (es : List OutEntry) → All (Upto h) (take (split_at h es) es)
unfolding split_at
split_at-Upto h [] = tt
split_at-Upto h (e ∷ es) = elim (Bool-cases (ltb h e.seq)) [
  | inl y ↦ rw y tt
  | inr y ↦ rw y (ground arith, split_at-Upto h es)
]

split_at-After :
    (h c : ℕ) (es : List OutEntry) → Follows c es → All (After h) (drop (split_at h es) es)
unfolding split_at
split_at-After h c [] f = tt
split_at-After h c (e ∷ es) f = elim (Bool-cases (ltb h e.seq)) [
  | inl y ↦ rw y (ground arith, Follows-After h e.seq es (ground arith) f.2)
  | inr y ↦ rw y (split_at-After h e.seq es f.2)
]

last_seq-le :
    (h c : ℕ) (es : List OutEntry) → is_nil es ≡ false → All (Upto h) es → last_seq c es ≤ h
last_seq-le h c [] n u = cc
last_seq-le h c (e ∷ []) n u = u.0
last_seq-le h c (e ∷ x ∷ es) n u = last_seq-le h e.seq (x ∷ es) refl u.1

abbrev TakesUpto : ℕ → Option (List OutEntry) → Type 0
TakesUpto h none = Unit
TakesUpto h (some es) = (c : ℕ) × Follows c es × (last_seq c es ≤ h)

abbrev LeavesAfter : ℕ → Option OutBuf → Type 0
LeavesAfter h none = Unit
LeavesAfter h (some buf) = All (After h) buf.entries

abbrev pub LeftAfter : ℕ → String × OutBuf → Type 0
LeftAfter h b = All (After h) b.1.entries

is_nil-take : (n : ℕ) (es : List OutEntry) → n ≢ 0 → is_nil es ≡ false → is_nil (take n es) ≡ false
is_nil-take zero es n f = absurd (n refl)
is_nil-take (suc n) [] p f = f
is_nil-take (suc n) (e ∷ es) p f = refl

drop_all : (es : List OutEntry) → drop (length es) es ≡ []
drop_all [] = refl
drop_all (e ∷ es) = drop_all es

cut_seal-SealsAt :
    (h : ℕ) (buf : OutBuf)
    → IsBuf buf
    → TakesUpto h (cut_seal h buf).0 × LeavesAfter h (cut_seal h buf).1
unfolding cut_seal
cut_seal-SealsAt h buf v = elim (Bool-cases (nat_beq n 0)) [
  | inl z ↦ rw z (tt, subst (λ k. All (After h) (drop k buf.entries)) ((nat_beq_iff n 0).0 z) left)
  | inr z ↦ rw z (elim (Bool-cases (nat_beq n (length buf.entries))) [
    | inl y ↦ rw y (taken z, tt)
    | inr y ↦ rw y (taken z, left)
  ])
]
  where
    n : ℕ
    n = split_at h buf.entries

    left : All (After h) (drop n buf.entries)
    left = split_at-After h v.start buf.entries v.segment

    taken :
        nat_beq n 0 ≡ false
        → (c : ℕ) × Follows c (take n buf.entries) × (last_seq c (take n buf.entries) ≤ h)
    taken z = (
      v.start,
      Follows-take n v.start buf.entries v.segment,
      last_seq-le h v.start _ (is_nil-take n buf.entries (ground arith) v.filled)
          (split_at-Upto h buf.entries),
    )

keep_buf-LeftAfter :
    (h : ℕ) (id : String) (kept : Option OutBuf) (bufs : Bufs)
    → LeavesAfter h kept
    → All (LeftAfter h) bufs
    → All (LeftAfter h) (keep_buf id kept bufs)
keep_buf-LeftAfter h id none bufs k r = r
keep_buf-LeftAfter h id (some buf) bufs k r = (k, r)

module _ (marshal_len : Message → Option ℕ) where
  abbrev pub SentUpto : ℕ → Message → Type 0
  SentUpto h m = m.seq ≤ h

  Within-SentUpto :
      (h v : ℕ) (id : String) (ms : List Message)
      → v ≤ h
      → All (Within marshal_len id v) ms
      → All (SentUpto h) ms
  Within-SentUpto h v id [] le w = tt
  Within-SentUpto h v id (m ∷ ms) le w = (omega (arith, w.0), Within-SentUpto h v id ms le w.1)

  send_batch-SentUpto :
      (h c : ℕ) (id : String) (es : List OutEntry)
      → Follows c es
      → last_seq c es ≤ h
      → All (SentUpto h) (send_batch marshal_len id es)
  send_batch-SentUpto h c id es f le =
      Within-SentUpto h (last_seq c es) id _ le
        (Covers-Within marshal_len id c (last_seq c es) _ (send_batch_lem marshal_len id c es f).2)

  send_jobs-SentUpto :
      (h : ℕ) (id : String) (job : Option (List OutEntry)) (jobs : List Job)
      → TakesUpto h job
      → All (SentUpto h) (send_jobs marshal_len jobs)
      → All (SentUpto h) (send_jobs marshal_len (push_job id job jobs))
  unfolding send_jobs
  send_jobs-SentUpto h id none jobs t sent = sent
  send_jobs-SentUpto h id (some es) jobs t sent =
      All-append (SentUpto h) _ _ (send_batch-SentUpto h t.0 id es t.1 t.2) sent

  seal_cons :
      (h : ℕ) (id : String) (buf : OutBuf) (bufs : Bufs)
      → IsBuf buf
      → All (SentUpto h) (seal_at marshal_len h bufs).1
        × All (LeftAfter h) (seal_at marshal_len h bufs).0
      → All (SentUpto h) (seal_at marshal_len h ((id, buf) ∷ bufs)).1
        × All (LeftAfter h) (seal_at marshal_len h ((id, buf) ∷ bufs)).0
  unfolding seal_at run_sweep sweep
  seal_cons h id buf bufs v rest =
      let c = cut_seal-SealsAt h buf v in
      (
        send_jobs-SentUpto h id (cut_seal h buf).0 (sweep (cut_seal h) bufs).0 c.0 rest.0,
        keep_buf-LeftAfter h id (cut_seal h buf).1 (sweep (cut_seal h) bufs).1 c.1 rest.1,
      )

  -- The messages that SealAt at `h` sends carry writes up to `h` only, and every write that stays
  -- queued, of any session, comes after `h`: no batch straddles the history snapshot.
  pub seal_at_separates :
      (h : ℕ) (bufs : Bufs)
      → IsBufs bufs
      → All (SentUpto h) (seal_at marshal_len h bufs).1
        × All (LeftAfter h) (seal_at marshal_len h bufs).0
  unfolding seal_at run_sweep
  seal_at_separates h [] v = (unfold sweep send_jobs in tt, unfold sweep in tt)
  seal_at_separates h ((id, buf) ∷ bufs) v =
      seal_cons h id buf bufs v.0 (seal_at_separates h bufs v.2)

  -- Neither old nor full: the flusher need not send it yet.
  abbrev pub Young : Bool → ℕ → String × OutBuf → Type 0
  Young interactive now b =
      (now - b.1.first_add < (if interactive then output_interactive_flush else output_idle_flush))
      × (b.1.raw_len < output_raw_cap)

  due-Young :
      (interactive : Bool) (now : ℕ) (id : String) (buf : OutBuf)
      → due interactive now buf ≡ false
      → Young interactive now (id, buf)
  unfolding due
  due-Young interactive now id buf h = ground arith

  due-old :
      (interactive : Bool) (now : ℕ) (id : String) (buf : OutBuf)
      → due interactive now buf ≡ true
      → ¬ Young interactive now (id, buf)
  unfolding due
  due-old interactive now id buf h y = ground (arith, y)

  -- What a tick leaves and sends: it leaves the young buffers, and sends all entries of each other.
  abbrev pub IsSwept : Bool → ℕ → Bufs → Bufs → List Message → Type 0
  IsSwept interactive now [] kept sent = (kept ≡ []) × (sent ≡ [])
  IsSwept interactive now ((id, buf) ∷ bufs) kept sent =
      (Young interactive now (id, buf)
        × ((rest : Bufs) × (kept ≡ (id, buf) ∷ rest) × IsSwept interactive now bufs rest sent))
      ⊎ ((¬ Young interactive now (id, buf))
          × ((later : List Message) × (sent ≡ send_batch marshal_len id buf.entries ++ later)
              × IsSwept interactive now bufs kept later))

  -- The batches of all buffers
  abbrev pub batches : Bufs → List Message
  batches [] = []
  batches ((id, buf) ∷ bufs) = send_batch marshal_len id buf.entries ++ batches bufs

  no_batch :
      (id : String) (es : List OutEntry) → is_nil es ≡ true → send_batch marshal_len id es ≡ []
  unfolding send_batch send_batch? pack_entries emit
  no_batch id [] h = refl
  no_batch id (e ∷ es) h = cc

  flush_all_lem : (bufs : Bufs) → flush_all marshal_len bufs ≡ ([], batches bufs)
  unfolding flush_all run_sweep sweep cut_all send_jobs
  flush_all_lem [] = refl
  flush_all_lem ((id, buf) ∷ bufs) = elim (Bool-cases (is_nil buf.entries)) [
    | inl z ↦ rw z (
        flush_all_lem bufs
        ∙ ap (λ (l : List Message). ([], l ++ batches bufs)) (sym (no_batch id buf.entries z)))
    | inr z ↦ rw z (
        ap (λ (r : Bufs × List Message). (r.0, send_batch marshal_len id buf.entries ++ r.1))
          (flush_all_lem bufs))
  ]

  -- After a tick every buffer that is left is younger than the deadline of the tier (10 ms after
  -- recent input, else 600 ms) and holds less than 24 KB, and is as it was; each other buffer is
  -- sent, with all its entries, as the batches of sendBatch. FlushAll sends every buffer and leaves
  -- none.
  pub flushed_in_time :
      (interactive : Bool) (now : ℕ) (bufs : Bufs)
      → All (Young interactive now) (tick marshal_len interactive now bufs).0
        × IsSwept interactive now bufs
            (tick marshal_len interactive now bufs).0
            (tick marshal_len interactive now bufs).1
        × (flush_all marshal_len bufs ≡ ([], batches bufs))
  unfolding tick run_sweep sweep cut_due send_jobs
  flushed_in_time interactive now [] = (tt, (refl, refl), flush_all_lem [])
  flushed_in_time interactive now ((id, buf) ∷ bufs) =
      let (young, flushed, _) = flushed_in_time interactive now bufs in
      elim (Bool-cases (due interactive now buf)) [
        | inl d ↦ rw d (
          young,
          inr (due-old interactive now id buf d, (_, refl, flushed)),
          flush_all_lem ((id, buf) ∷ bufs),
        )
        | inr d ↦ rw d (
          (due-Young interactive now id buf d, young),
          inl (due-Young interactive now id buf d, (_, refl, flushed)),
          flush_all_lem ((id, buf) ∷ bufs),
        )
      ]

  pub flush_all_nothing : flush_all marshal_len [] ≡ ([], [])
  unfolding flush_all run_sweep sweep send_jobs
  flush_all_nothing = refl
