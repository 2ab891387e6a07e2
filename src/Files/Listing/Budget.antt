-- ===== src/Files/Listing/Budget.antt =====
-- cmd/claw/filetransfer.go: how much of the budget a span of sendDirList takes.
use clianywhere_daemon.Prelude.{
  All-append, length-drop, ℕ, zero, suc, ◌+◌, ◌-◌, ◌≤◌, ◌<◌, false, List, [], ◌∷◌, ◌++◌, ◌≡◌, refl,
  sym, ap, ◌∙◌, ◌⊎◌, inl, inr, arith, length, take, drop, All, Bool-cases, append_assoc,
  length-append, subst,
}
use clianywhere_daemon.Files.Listing.{pack, overflows, dir_list_budget}
use clianywhere_daemon.Files.Listing.Spans.{part, pack-cut, pack_keep}

abbrev pub sum : List ℕ → ℕ
sum [] = 0
sum (n ∷ ns) = n + sum ns

sum-append : (xs ys : List ℕ) → sum (xs ++ ys) ≡ sum xs + sum ys
sum-append [] ys = omega arith
sum-append (x ∷ xs) ys = omega (arith, sum-append xs ys)

-- The entries of a span fit the budget together, or there is only one.
abbrev pub FitsBudget : List ℕ → ℕ × ℕ → Type 0
FitsBudget sizes (lo, hi) = (sum (part lo hi sizes) ≤ dir_list_budget) ⊎ (hi ≤ lo + 1)

abbrev IsPositive : ℕ → Type 0
IsPositive n = 0 < n

drop_all : (xs ys : List ℕ) → drop (length xs) (xs ++ ys) ≡ ys
drop_all [] ys = refl
drop_all (x ∷ xs) ys = drop_all xs ys

drop-append_le : (n : ℕ) (xs ys : List ℕ) → n ≤ length xs → drop n (xs ++ ys) ≡ drop n xs ++ ys
drop-append_le zero xs ys h = refl
drop-append_le (suc n) [] ys h = absurd (omega arith)
drop-append_le (suc n) (x ∷ xs) ys h = drop-append_le n xs ys (omega arith)

take_whole : (n : ℕ) (xs ys : List ℕ) → length xs ≡ n → take n (xs ++ ys) ≡ xs
take_whole zero [] ys e = refl
take_whole (suc n) [] ys e = absurd (omega arith)
take_whole zero (x ∷ xs) ys e = absurd (omega arith)
take_whole (suc n) (x ∷ xs) ys e = ap (◌∷◌ x) (take_whole n xs ys (omega arith))

part_end :
    (start : ℕ) (pre rest : List ℕ)
    → start ≤ length pre
    → part start (length pre) (pre ++ rest) ≡ drop start pre
part_end start pre rest h =
    ap (take (length pre - start)) (drop-append_le start pre rest h)
    ∙ take_whole (length pre - start) (drop start pre) rest (length-drop start pre)

-- Sizes that are positive sum to 0 only if there is none.
sum-eq-zero :
    (start : ℕ) (pre : List ℕ) → All IsPositive pre → sum (drop start pre) ≡ 0 → length pre ≤ start
sum-eq-zero zero [] h e = omega arith
sum-eq-zero zero (x ∷ pre) h e = absurd (omega (arith, h.0))
sum-eq-zero (suc start) [] h e = omega arith
sum-eq-zero (suc start) (x ∷ pre) h e = omega (arith, sum-eq-zero start pre h.1 e)

overflows_no : (cost s : ℕ) → overflows cost s ≡ false → (cost ≡ 0) ⊎ (cost + s ≤ dir_list_budget)
unfolding overflows
overflows_no cost s e = ground arith

sum-drop_snoc :
    (start s : ℕ) (pre : List ℕ)
    → start ≤ length pre
    → sum (drop start (pre ++ s ∷ [])) ≡ sum (drop start pre) + s
sum-drop_snoc start s pre h =
    ap sum (drop-append_le start pre (s ∷ []) h)
    ∙ omega (arith, sum-append (drop start pre) (s ∷ []))

open-FitsBudget :
    (pre rest : List ℕ) (i start cost : ℕ)
    → length pre ≡ i
    → start ≤ i
    → cost ≡ sum (drop start pre)
    → (cost ≤ dir_list_budget) ⊎ (i ≤ start + 1)
    → FitsBudget (pre ++ rest) (start, i)
open-FitsBudget pre rest i start cost e le c (inl fits) = inl (
    omega (
      arith,
      ap (λ (k : ℕ). sum (part start k (pre ++ rest))) (sym e)
          ∙ ap sum (part_end start pre rest (omega (arith, e))),
      c,
      fits,
    ))
open-FitsBudget pre rest i start cost e le c (inr one) = inr one

snoc-IsPositive :
    (pre : List ℕ) (s : ℕ) → All IsPositive pre → 0 < s → All IsPositive (pre ++ s ∷ [])
snoc-IsPositive pre s h k = All-append IsPositive pre (s ∷ []) h (k, tt)

-- `cost` is what the entries since `start` take.
pub pack-FitsBudget :
    (pre ss : List ℕ) (i start cost : ℕ)
    → All IsPositive pre
    → All IsPositive ss
    → length pre ≡ i
    → start ≤ i
    → cost ≡ sum (drop start pre)
    → (cost ≤ dir_list_budget) ⊎ (i ≤ start + 1)
    → All (FitsBudget (pre ++ ss)) (pack i start cost ss)
unfolding pack
pack-FitsBudget pre [] i start cost hp hs e le c fits =
    (open-FitsBudget pre [] i start cost e le c fits, tt)
pack-FitsBudget pre (s ∷ ss) i start cost hp hs e le c fits = elim (Bool-cases (overflows cost s)) [
  | inl cut ↦ rw (pack-cut i start cost s ss cut) (
    open-FitsBudget pre (s ∷ ss) i start cost e le c fits,
    subst (λ (sizes : List ℕ). All (FitsBudget sizes) (pack (i + 1) i s ss))
        (append_assoc pre (s ∷ []) ss)
        (pack-FitsBudget (pre ++ s ∷ []) ss (i + 1) i s (snoc-IsPositive pre s hp hs.0) hs.1 grown
          (omega arith) alone (inr (omega arith))),
  )
  | inr keep ↦ rw (pack_keep i start cost s ss keep) (
      subst (λ (sizes : List ℕ). All (FitsBudget sizes) (pack (i + 1) start (cost + s) ss))
        (append_assoc pre (s ∷ []) ss)
        (pack-FitsBudget (pre ++ s ∷ []) ss (i + 1) start (cost + s) (snoc-IsPositive pre s hp hs.0)
          hs.1 grown (omega arith) (omega (arith, c, sum-drop_snoc start s pre (omega (arith, e))))
          (still (overflows_no cost s keep))))
]
  where
    grown : length (pre ++ s ∷ []) ≡ i + 1
    grown = length-append pre (s ∷ []) ∙ omega (arith, e)

    alone : s ≡ sum (drop i (pre ++ s ∷ []))
    alone = sym (
        ap (λ (k : ℕ). sum (drop k (pre ++ s ∷ []))) (sym e)
        ∙ ap sum (drop_all pre (s ∷ []))
        ∙ omega arith)

    still :
        (cost ≡ 0) ⊎ (cost + s ≤ dir_list_budget)
        → (cost + s ≤ dir_list_budget) ⊎ (i + 1 ≤ start + 1)
    still (inl none_open) = inr (omega (arith, sum-eq-zero start pre hp (sym c ∙ none_open), e))
    still (inr room) = inl room
