-- ===== src/Files/Listing/Spans.antt =====
-- cmd/claw/filetransfer.go: the spans of sendDirList follow one another without a gap, and so do the
-- slices that they select.
use clianywhere_daemon.Prelude.{
  drop-drop, false, true, le→leb, Bool-cases, ℕ, zero, suc, ◌+◌, ◌-◌, ◌≤◌, some, List, [], ◌∷◌,
  ◌++◌, ◌≡◌, refl, sym, ap, ◌∙◌, inl, inr, arith, length, take, drop, take-append-drop,
}
use clianywhere_daemon.Files.Listing.{overflows, min, pack, slice}

-- The spans cover `a` to `b` in order.
abbrev pub Covers : ℕ → ℕ → List (ℕ × ℕ) → Type 0
Covers a b [] = a ≡ b
Covers a b ((lo, hi) ∷ cs) = (lo ≡ a) × (lo ≤ hi) × (hi ≤ b) × Covers hi b cs

module _ (i start cost s : ℕ) (ss : List ℕ) where
  pub pack-cut :
      overflows cost s ≡ true → pack i start cost (s ∷ ss) ≡ (start, i) ∷ pack (i + 1) i s ss
  unfolding pack
  pack-cut e = rw e refl

  pub pack_keep :
      overflows cost s ≡ false → pack i start cost (s ∷ ss) ≡ pack (i + 1) start (cost + s) ss
  unfolding pack
  pack_keep e = rw e refl

pub pack-Covers :
    (i start cost b : ℕ) (ss : List ℕ)
    → start ≤ i
    → i + length ss ≡ b
    → Covers start b (pack i start cost ss)
unfolding pack
pack-Covers i start cost b [] h e = (refl, h, omega arith, omega arith)
pack-Covers i start cost b (s ∷ ss) h e = elim (Bool-cases (overflows cost s)) [
  | inl cut ↦
      rw (pack-cut i start cost s ss cut)
        (refl, h, omega arith, pack-Covers (i + 1) i s b ss (omega arith) (omega arith))
  | inr keep ↦
      rw (pack_keep i start cost s ss keep)
        (pack-Covers (i + 1) start (cost + s) b ss (omega arith) (omega arith))
]

-- The part of a list that a span selects.
abbrev pub part {ℓ} : {A : Type ℓ} → ℕ → ℕ → List A → List A
part lo hi xs = take (hi - lo) (drop lo xs)

module _ {ℓ} {A : Type ℓ} where
  pub slice_lem :
      (lo hi : ℕ) (xs : List A) → lo ≤ hi → hi ≤ length xs → slice lo hi xs ≡ some (part lo hi xs)
  unfolding slice
  slice_lem lo hi xs h k = rw (le→leb lo hi h, le→leb hi (length xs) k) refl

  pub part-drop : (lo hi : ℕ) (xs : List A) → lo ≤ hi → part lo hi xs ++ drop hi xs ≡ drop lo xs
  part-drop lo hi xs h =
      ap (λ l. part lo hi xs ++ l) (sym (drop-drop lo (hi - lo) hi xs (omega arith)))
      ∙ take-append-drop (hi - lo) (drop lo xs)

  same_parts :
      (xs ys : List A) {a b c d a' b' c' d' : ℕ}
      → a ≡ a'
      → b ≡ b'
      → c ≡ c'
      → d ≡ d'
      → part a b xs ++ part c d ys ≡ part a' b' xs ++ part c' d' ys
  same_parts xs ys e f g h = λ i. part (e i) (f i) xs ++ part (g i) (h i) ys

  part-suc : (a b : ℕ) (x : A) (xs : List A) → part (suc a) (suc b) (x ∷ xs) ≡ part a b xs
  part-suc a b x xs = ap (λ (k : ℕ). take k (drop a xs)) (omega arith)

  part_zero : (b : ℕ) (x : A) (xs : List A) → part 0 (suc b) (x ∷ xs) ≡ x ∷ part 0 b xs
  part_zero b x xs = ap (λ (k : ℕ). take k (x ∷ xs)) {x = suc b - 0} {y = suc (b - 0)} (omega arith)

  -- The part of two lists in a row is made of a part of each.
  pub part-append :
      (lo hi n : ℕ) (xs ys : List A)
      → n ≡ length xs
      → lo ≤ hi
      → part (min lo n) (min hi n) xs ++ part (lo - n) (hi - n) ys ≡ part lo hi (xs ++ ys)
  part-append lo hi n [] ys e h =
      same_parts [] ys {a = min lo n} {b = min hi n} {c = lo - n} {d = hi - n} {a' = 0} {b' = 0}
        {c' = lo} {d' = hi} (omega (arith, e)) (omega (arith, e)) (omega (arith, e))
        (omega (arith, e))
  part-append lo hi zero (x ∷ xs) ys e h = absurd (omega arith)
  part-append zero zero (suc n) (x ∷ xs) ys e h =
      same_parts (x ∷ xs) ys {a = min zero (suc n)} {b = min zero (suc n)} {c = zero - (suc n)}
        {d = zero - (suc n)} {a' = 0} {b' = 0} {c' = 0} {d' = 0} (omega arith) (omega arith)
        (omega arith) (omega arith)
  part-append zero (suc hi) (suc n) (x ∷ xs) ys e h =
      same_parts (x ∷ xs) ys {a = min zero (suc n)} {b = min (suc hi) (suc n)} {c = zero - (suc n)}
        {d = (suc hi) - (suc n)} {a' = 0} {b' = suc (min hi n)} {c' = 0 - n} {d' = hi - n}
        (omega arith) (omega arith) (omega arith) (omega arith)
      ∙ ap (λ l. l ++ part (0 - n) (hi - n) ys) (part_zero (min hi n) x xs)
      ∙ ap (λ (k : ℕ). x ∷ (part k (min hi n) xs ++ part (0 - n) (hi - n) ys)) {x = 0} {y = min 0 n}
          (omega arith)
      ∙ ap (◌∷◌ x) (part-append zero hi n xs ys (omega arith) (omega arith))
      ∙ sym (part_zero hi x (xs ++ ys))
  part-append (suc lo) zero (suc n) (x ∷ xs) ys e h = absurd (omega arith)
  part-append (suc lo) (suc hi) (suc n) (x ∷ xs) ys e h =
      same_parts (x ∷ xs) ys {a = min (suc lo) (suc n)} {b = min (suc hi) (suc n)}
        {c = (suc lo) - (suc n)} {d = (suc hi) - (suc n)} {a' = suc (min lo n)}
        {b' = suc (min hi n)} {c' = lo - n} {d' = hi - n} (omega arith) (omega arith) (omega arith)
        (omega arith)
      ∙ ap (λ l. l ++ part (lo - n) (hi - n) ys) (part-suc (min lo n) (min hi n) x xs)
      ∙ part-append lo hi n xs ys (omega arith) (omega arith)
      ∙ sym (part-suc lo hi x (xs ++ ys))
