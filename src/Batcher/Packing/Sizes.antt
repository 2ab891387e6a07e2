-- ===== src/Batcher/Packing/Sizes.antt =====
-- The sizes that the loops of sendBatch try.
use clianywhere_daemon.Prelude.{
  ℕ, zero, suc, ◌/◌, ◌≤◌, ◌<◌, Bool, true, false, Option, List, [], ◌∷◌, ◌++◌, ◌≡◌, refl, ◌⊎◌, inl,
  inr, arith, String, le→leb, length, take, length-take, Bool-cases,
}
use clianywhere_daemon.Protocol.{Bytes, Message}
use clianywhere_daemon.Batcher.{
  Open, OutEntry, accepts, emit, fit_size, first_size, is_empty, shrink, output_marshal_free_floor,
}

shrink-le : (fits : ℕ → Bool) (f size : ℕ) → shrink fits f size ≤ size
unfolding shrink
shrink-le fits zero size = omega arith
shrink-le fits (suc f) zero = omega arith
shrink-le fits (suc f) (suc s) = ground (arith, shrink-le fits f (suc s / 2))

-- The loop stops at a size that passes the test, or at 0.
shrink_fits :
    (fits : ℕ → Bool) (f size : ℕ) → (shrink fits f size ≡ 0) ⊎ (fits (shrink fits f size) ≡ true)
unfolding shrink
shrink_fits fits zero size = inl refl
shrink_fits fits (suc f) zero = inl refl
shrink_fits fits (suc f) (suc s) = elim (Bool-cases (fits (suc s))) [
  | inl e ↦ rw e (inr e)
  | inr e ↦ rw e (shrink_fits fits f (suc s / 2))
]

-- If all sizes up to `k` pass, the loop does not reach 0.
shrink_pos :
    (fits : ℕ → Bool) (k f size : ℕ)
    → 1 ≤ k
    → ((s : ℕ) → s ≤ k → fits s ≡ true)
    → 0 < size
    → size ≤ f
    → 0 < shrink fits f size
unfolding shrink
shrink_pos fits k zero size hk all p q = absurd (omega arith)
shrink_pos fits k (suc f) zero hk all p q = absurd (omega arith)
shrink_pos fits k (suc f) (suc s) hk all p q =
    grind (arith, all (suc s), shrink_pos fits k f (suc s / 2) hk all)

first_size_bounds :
    (b : ℕ) (rem : Bytes) → (0 < first_size (b ∷ rem)) × (first_size (b ∷ rem) ≤ length (b ∷ rem))
first_size_bounds b rem = ground arith

module _ {ℓ} {A : Type ℓ} where
  take-is_cons : (n : ℕ) (x : A) (xs : List A) → take (suc n) (x ∷ xs) ≡ x ∷ take n xs
  take-is_cons n x xs = refl

abbrev pub open_weight : Bytes → ℕ
open_weight [] = 0
open_weight (_ ∷ _) = 1

pub is_empty-weight : (p : Bytes) → is_empty p ≡ false → open_weight p ≡ 1
is_empty-weight [] h = cc
is_empty-weight (x ∷ p) h = refl

pub open_weight-le : (p : Bytes) → open_weight p ≤ 1
open_weight-le [] = omega arith
open_weight-le (x ∷ p) = omega arith

pub is_empty-nil : (p : Bytes) → is_empty p ≡ true → p ≡ []
is_empty-nil [] h = refl
is_empty-nil (x ∷ p) h = cc

pub is_empty-length : (p : Bytes) → is_empty p ≡ true → length p ≡ 0
is_empty-length [] h = refl
is_empty-length (x ∷ p) h = cc

module _ (marshal_len : Message → Option ℕ) (sid : String) where
  accepts_small :
      (d : Bytes) (n seq : ℕ)
      → length d ≤ output_marshal_free_floor
      → accepts marshal_len sid d n seq ≡ true
  unfolding accepts
  accepts_small d n seq h = rw (le→leb (length d) output_marshal_free_floor h)

  pub weight-emit :
      (x : Open) → is_empty x.payload ≡ false → open_weight (emit marshal_len sid x).payload ≡ 0
  unfolding emit
  weight-emit x h = rw (h, emit)

  module _ (e : OutEntry) (b : ℕ) (rem : Bytes) (n : ℕ) (o : Open) where
    pub fit_size-le : fit_size marshal_len sid e (b ∷ rem) n o ≤ length (b ∷ rem)
    unfolding fit_size
    fit_size-le = omega (
      arith,
      shrink-le (λ (size : ℕ). accepts marshal_len sid (o.payload ++ take size (b ∷ rem)) n e.seq)
          (first_size (b ∷ rem)) (first_size (b ∷ rem)),
      first_size_bounds b rem,
    )

    pub fit_size_fits :
        (fit_size marshal_len sid e (b ∷ rem) n o ≡ 0)
        ⊎ (accepts marshal_len sid
              (o.payload ++ take (fit_size marshal_len sid e (b ∷ rem) n o) (b ∷ rem))
              n
              e.seq
            ≡ true)
    unfolding fit_size
    fit_size_fits = shrink_fits _ (first_size (b ∷ rem)) (first_size (b ∷ rem))

    -- With an empty message a piece always fits.
    pub fit_size_pos : is_empty o.payload ≡ true → 0 < fit_size marshal_len sid e (b ∷ rem) n o
    unfolding fit_size
    fit_size_pos h =
        shrink_pos _ output_marshal_free_floor (first_size (b ∷ rem)) (first_size (b ∷ rem))
          (omega arith)
          (λ s hs.
            accepts_small _ n e.seq
              (rw (is_empty-nil o.payload h, length-take s (b ∷ rem)) (omega arith)))
          (first_size_bounds b rem).0 (omega arith)

    pub fit_size_zero : fit_size marshal_len sid e (b ∷ rem) n o ≡ 0 → is_empty o.payload ≡ false
    fit_size_zero z = elim (Bool-cases (is_empty o.payload)) [
      | inl h ↦ absurd (omega (arith, fit_size_pos h))
      | inr h ↦ h
    ]
