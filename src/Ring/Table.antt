-- ===== src/Ring/Table.antt =====
-- The loop `for i := 0; i < n; i++ { result[i] = f(i) }`.
use clianywhere_daemon.Prelude.{
  ℕ, zero, suc, ◌+◌, ◌<◌, min, ◌≡◌, refl, ap, ap₂, ◌∙◌, List, [], ◌∷◌, ◌++◌, length, take, drop,
  arith,
}

module _ {A : Type 0} where
  -- f i, f (i + 1), …: `n` values.
  pub tabulate : (ℕ → A) → ℕ → ℕ → List A
  tabulate f i zero = []
  tabulate f i (suc n) = f i ∷ tabulate f (i + 1) n

  pub length-tabulate : (f : ℕ → A) (i n : ℕ) → length (tabulate f i n) ≡ n
  unfolding tabulate
  length-tabulate f i zero = refl
  length-tabulate f i (suc n) = ap suc (length-tabulate f (i + 1) n)

  pub tabulate-eq :
      (f g : ℕ → A) (i j n : ℕ)
      → ((m : ℕ) → m < n → f (i + m) ≡ g (j + m))
      → tabulate f i n ≡ tabulate g j n
  unfolding tabulate
  tabulate-eq f g i j zero h = refl
  tabulate-eq f g i j (suc n) h =
      ap₂ ◌∷◌ (ap f (omega arith) ∙ h 0 (omega arith) ∙ ap g (omega arith)) (
        tabulate-eq f g (i + 1) (j + 1) n
          λ m lt. ap f (omega arith) ∙ h (suc m) (omega arith) ∙ ap g (omega arith))

  pub tabulate-suc : (f : ℕ → A) (i n : ℕ) → tabulate f i (suc n) ≡ tabulate f i n ++ f (i + n) ∷ []
  unfolding tabulate
  tabulate-suc f i zero = ap (λ (k : ℕ). f k ∷ []) (omega arith)
  tabulate-suc f i (suc n) =
      ap (◌∷◌ (f i))
        (tabulate-suc f (i + 1) n ∙ ap (λ (k : ℕ). tabulate f (i + 1) n ++ f k ∷ []) (omega arith))

  pub take-tabulate : (f : ℕ → A) (i k n : ℕ) → take k (tabulate f i n) ≡ tabulate f i (min k n)
  unfolding tabulate
  take-tabulate f i zero n = let e : 0 ≡ min 0 n = omega arith in ap (tabulate f i) e
  take-tabulate f i (suc k) zero = let e : 0 ≡ min (suc k) 0 = omega arith in ap (tabulate f i) e
  take-tabulate f i (suc k) (suc n) =
      let e : suc (min k n) ≡ min (suc k) (suc n) = omega arith in
      ap (◌∷◌ (f i)) (take-tabulate f (i + 1) k n) ∙ ap (tabulate f i) e

  pub drop-tabulate : (f : ℕ → A) (n : ℕ) → drop 1 (tabulate f 0 (suc n)) ≡ tabulate f 1 n
  unfolding tabulate
  drop-tabulate f n = let e : 0 + 1 ≡ 1 = omega arith in ap (λ (j : ℕ). tabulate f j n) e

  pub tabulate-zero : (f : ℕ → A) (i : ℕ) → tabulate f i 0 ≡ []
  unfolding tabulate
  tabulate-zero f i = refl
