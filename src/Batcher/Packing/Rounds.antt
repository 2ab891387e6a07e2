-- ===== src/Batcher/Packing/Rounds.antt =====
-- The loop over the bytes of one write ends, and takes them in.
use clianywhere_daemon.Prelude.{
  ℕ, zero, suc, ◌+◌, ◌*◌, ◌≤◌, ◌<◌, Bool, true, false, Option, some, [], ◌∷◌, ◌++◌, ◌≡◌, refl, sym,
  ◌∙◌, ◌⊎◌, inl, inr, arith, String, length, take, drop, append-nil, length-drop, take-append-drop,
  Bool-cases,
}
use clianywhere_daemon.Protocol.{Bytes, Message}
use clianywhere_daemon.Batcher.{
  Open, OutEntry, accepts, extend, fit_size, is_empty, next_n, split_step, pack_entry,
}
use clianywhere_daemon.Batcher.Packing.{
  append-is_empty, Advances, Advances-trans, emit-Advances, extend-Advances, bytes_of,
}
use clianywhere_daemon.Batcher.Packing.Sizes.{
  fit_size-le, fit_size_fits, fit_size_zero, weight-emit, is_empty-weight, is_empty-length,
  open_weight,
}

module _ (marshal_len : Message → Option ℕ) (sid : String) where
  -- One round that does not end the loop: it takes in `piece`, leaves `r.0`, and is nearer the end.
  record Round (w c : ℕ) (e : OutEntry) (rem : Bytes) (o : Open) (r : Bytes × Bool × Open)
      : Type 0 where
    piece : Bytes
    whole : piece ++ r.0 ≡ rem
    upto : ℕ
    advances : Advances marshal_len sid w o c piece r.2 upto
    expects : e.seq ≡ next_n r.1 upto
    ended : is_empty r.0 ≡ true → upto ≡ e.seq
    nearer : 2 * length r.0 + open_weight r.2.payload < 2 * length rem + open_weight o.payload

  module _ (w c : ℕ) (e : OutEntry) (b : ℕ) (rem : Bytes) (first : Bool) (o : Open)
      (next : e.seq ≡ next_n first c) where
    emit-Round :
        is_empty o.payload ≡ false
        → Round w c e (b ∷ rem) o (split_step marshal_len sid e (b ∷ rem) first o 0)
    unfolding split_step
    emit-Round full = record {
      piece = [];
      whole = refl;
      upto = c;
      advances = emit-Advances marshal_len sid w c o;
      expects = next;
      ended = λ h. cc;
      nearer = omega (arith, weight-emit marshal_len sid o full, is_empty-weight o.payload full);
    }

    split-Round :
        (s : ℕ)
        → accepts marshal_len sid (o.payload ++ take (suc s) (b ∷ rem)) (next_n first o.n) e.seq
          ≡ true
        → suc s ≤ length (b ∷ rem)
        → Round w c e (b ∷ rem) o (split_step marshal_len sid e (b ∷ rem) first o (suc s))
    unfolding split_step
    split-Round s fits le = elim (Bool-cases (is_empty (drop s rem))) [
      | inl h ↦ rw h (record {
        piece = take (suc s) (b ∷ rem);
        whole = take-append-drop (suc s) (b ∷ rem);
        upto = e.seq;
        advances = extend-Advances marshal_len sid w c o _ first e.seq refl fits next;
        expects = refl;
        ended = λ _. refl;
        nearer = omega (arith, is_empty-length (drop s rem) h, open_piece);
      })
      | inr h ↦ rw h (record {
        piece = take (suc s) (b ∷ rem) ++ [];
        whole = rw append-nil (take-append-drop (suc s) (b ∷ rem));
        upto = e.seq;
        advances =
            Advances-trans marshal_len sid
              (extend-Advances marshal_len sid w c o _ first e.seq refl fits next)
              (emit-Advances marshal_len sid w e.seq _);
        expects = refl;
        ended = λ _. refl;
        nearer = omega (
          arith,
          weight-emit marshal_len sid (extend o (take (suc s) (b ∷ rem)) (next_n first o.n) e.seq)
              (append-is_empty o.payload (b ∷ take s rem) refl),
          length-drop s rem,
        );
      })
    ]
      where
        open_piece : open_weight (o.payload ++ b ∷ take s rem) ≡ 1
        open_piece =
            is_empty-weight (o.payload ++ b ∷ take s rem)
              (append-is_empty o.payload (b ∷ take s rem) refl)

    split_step-Round : Round w c e (b ∷ rem) o (
        split_step marshal_len sid e
          (b ∷ rem)
          first
          o
          (fit_size marshal_len sid e (b ∷ rem) (next_n first o.n) o))
    split_step-Round = go _ refl (fit_size_fits marshal_len sid e b rem (next_n first o.n) o)
      where
        size : ℕ
        size = fit_size marshal_len sid e (b ∷ rem) (next_n first o.n) o

        go :
            (k : ℕ)
            → size ≡ k
            → (size ≡ 0)
              ⊎ (accepts marshal_len sid (o.payload ++ take size (b ∷ rem)) (next_n first o.n) e.seq
                  ≡ true)
            → Round w c e (b ∷ rem) o (split_step marshal_len sid e (b ∷ rem) first o k)
        go zero z _ = emit-Round (fit_size_zero marshal_len sid e b rem (next_n first o.n) o z)
        go (suc s) z (inl y) = absurd (omega arith)
        go (suc s) z (inr y) =
            split-Round s (rw z at y)
              (omega (arith, fit_size-le marshal_len sid e b rem (next_n first o.n) o))

  -- The loop over one write ends with its bytes taken in.
  pub record Packed (w c : ℕ) (e : OutEntry) (rem : Bytes) (first : Bool) (o : Open)
      (r : Option Open) : Type 0 where
    pub result : Open
    pub returns : r ≡ some result
    pub upto : ℕ
    pub advances : Advances marshal_len sid w o c rem result upto
    pub same : is_empty rem ≡ true → upto ≡ c
    pub written : is_empty rem ≡ false → upto ≡ e.seq

  combine :
      {w c : ℕ} {e : OutEntry} {b : ℕ} {rem : Bytes} {first : Bool} {o : Open}
      {r : Bytes × Bool × Open} {out : Option Open} (d : Round w c e (b ∷ rem) o r)
      → Packed w d.upto e r.0 r.1 r.2 out
      → Packed w c e (b ∷ rem) first o out
  combine {r} d k = record {
    result = k.result;
    returns = k.returns;
    upto = k.upto;
    advances = rw (← d.whole) (Advances-trans marshal_len sid d.advances k.advances);
    same = λ h. cc;
    written = λ _. elim (Bool-cases (is_empty r.0)) [
      | inl h ↦ k.same h ∙ d.ended h
      | inr h ↦ k.written h
    ];
  }

  pub pack_entry-Packed :
      (fuel w c : ℕ) (e : OutEntry) (rem : Bytes) (first : Bool) (o : Open)
      → e.seq ≡ next_n first c
      → 2 * length rem + open_weight o.payload ≤ fuel
      → Packed w c e rem first o (pack_entry marshal_len fuel sid e rem first o)
  unfolding pack_entry
  pack_entry-Packed fuel w c e [] first o next enough = record {
    result = o;
    returns = refl;
    upto = c;
    advances = record { bytes = sym (append-nil (bytes_of o)); packed = λ k. k; covered = λ k. k };
    same = λ _. refl;
    written = λ h. cc;
  }
  pack_entry-Packed zero w c e (b ∷ rem) first o next enough = absurd (omega arith)
  pack_entry-Packed (suc f) w c e (b ∷ rem) first o next enough =
      let d = split_step-Round w c e b rem first o next in
      elim (Bool-cases (accepts marshal_len sid (o.payload ++ b ∷ rem) (next_n first o.n) e.seq)) [
        | inl h ↦ rw h (record {
          result = extend o (b ∷ rem) (next_n first o.n) e.seq;
          returns = refl;
          upto = e.seq;
          advances = extend-Advances marshal_len sid w c o (b ∷ rem) first e.seq refl h next;
          same = λ k. cc;
          written = λ _. refl;
        })
        | inr h ↦
            rw h
              (combine d (pack_entry-Packed f w d.upto e _ _ _ d.expects (omega (arith, d.nearer))))
      ]
