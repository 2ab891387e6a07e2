-- ===== src/Update/Order.antt =====
-- internal/checkupdate/checkupdate.go: the order of CompareVersions.
use clianywhere_daemon.Prelude.{
  Bool-cases, inl, inr, ◌⊎◌, subst, nat_beq, nat_beq_iff, false, get_or, ℕ, zero, suc, ◌+◌, ◌*◌,
  ◌-◌, ◌^◌, ◌%◌, ◌≤◌, ◌<◌, List, [], ◌∷◌, ◌≡◌, ◌≢◌, sym, ◌∙◌, arith, length, ltb,
}
use native.Mathlib.Decide.{dec_lt}
use clianywhere_daemon.Update.Parts.{number_past, number_at, part_at_lem, IsCut, split_dots-IsCut}
use clianywhere_daemon.Text.{Text}
use clianywhere_daemon.Update.{
  Age, older, same, newer, part_at, compare_from, compare_versions, split_dots, int_key, atoi_from,
  atoi_safe,
}

-- A number below another, as a 64-bit int: a pattern from 2^63 on is negative.
abbrev pub IsBelow : ℕ → ℕ → Type 0
IsBelow x y =
    ((2 ^ 63 ≤ x) × (y < 2 ^ 63))
    ⊎ ((x < y) × (((x < 2 ^ 63) × (y < 2 ^ 63)) ⊎ ((2 ^ 63 ≤ x) × (2 ^ 63 ≤ y))))

-- The first part in which two versions differ, from `i` on; a part that is not there is 0.
abbrev pub DiffersFirst : (ℕ → ℕ → Type 0) → ℕ → List Text → List Text → Type 0
DiffersFirst R i as' bs =
    (j : ℕ) × (i ≤ j)
    × ((l : ℕ) → i ≤ l → l < j → number_at as' l ≡ number_at bs l)
    × R (number_at as' j) (number_at bs j)

-- The order of versions from part `i` on.
abbrev pub Decides : Age → ℕ → List Text → List Text → Type 0
Decides newer i as' bs = DiffersFirst (λ x y. IsBelow y x) i as' bs
Decides older i as' bs = DiffersFirst IsBelow i as' bs
Decides same i as' bs = (l : ℕ) → i ≤ l → number_at as' l ≡ number_at bs l

atoi_from_lt : (n : ℕ) (s : Text) → n < 2 ^ 64 → atoi_from n s < 2 ^ 64
unfolding atoi_from
atoi_from_lt n [] h = h
atoi_from_lt n (c ∷ s) h = ground (arith, atoi_from_lt ((n * 10 + (c - b'0')) % 2 ^ 64) s)

part_at_lt : (parts : List Text) (i : ℕ) → part_at parts i < 2 ^ 64
unfolding part_at atoi_safe
part_at_lt parts i = ground (arith, atoi_from_lt 0 (get_or parts i []))

below : (x y : ℕ) → x < 2 ^ 64 → y < 2 ^ 64 → int_key x < int_key y → IsBelow x y
unfolding int_key
below x y hx hy h = elim (dec_lt x (2 ^ 63)) [
  | yes p ↦ elim (dec_lt y (2 ^ 63)) [
    | yes q ↦ inr (omega (arith, h), inl (p, q))
    | no q ↦ absurd (omega (arith, h, p, q, hy))
  ]
  | no p ↦ elim (dec_lt y (2 ^ 63)) [
    | yes q ↦ inl (omega (arith, p), q)
    | no q ↦ inr (omega (arith, h, p, q, hx, hy), inr (omega (arith, p), omega (arith, q)))
  ]
]

keys_apart :
    (x y : ℕ)
    → x < 2 ^ 64
    → y < 2 ^ 64
    → x ≢ y
    → ltb (int_key y) (int_key x) ≡ false
    → int_key x < int_key y
unfolding int_key
keys_apart x y hx hy n h = ground (arith, n)

number_at_lt : (parts : List Text) (i : ℕ) → number_at parts i < 2 ^ 64
number_at_lt parts i = omega (arith, part_at_lem parts i, part_at_lt parts i)

module _ (as' bs : List Text) where
  at_once :
      (R : ℕ → ℕ → Type 0) (i : ℕ) → R (number_at as' i) (number_at bs i) → DiffersFirst R i as' bs
  at_once R i r = (i, omega arith, (λ l le lt. absurd (omega (arith, le, lt))), r)

  upto :
      (i : ℕ)
      → number_at as' i ≡ number_at bs i
      → (l : ℕ) → i ≤ l
      → (i + 1 ≤ l → number_at as' l ≡ number_at bs l)
      → number_at as' l ≡ number_at bs l
  upto i e l le later = elim (dec_lt i l) [
    | yes p ↦ later (omega (arith, p))
    | no p ↦ subst (λ (n : ℕ). number_at as' n ≡ number_at bs n) (omega (arith, le, p)) e
  ]

  further :
      (R : ℕ → ℕ → Type 0) (i : ℕ)
      → number_at as' i ≡ number_at bs i
      → DiffersFirst R (i + 1) as' bs
      → DiffersFirst R i as' bs
  further R i e (j, le, equal, r) =
      (j, omega (arith, le), (λ l low high. upto i e l low (λ le'. equal l le' high)), r)

  Decides-step :
      (g : Age) (i : ℕ)
      → number_at as' i ≡ number_at bs i
      → Decides g (i + 1) as' bs
      → Decides g i as' bs
  Decides-step newer i e d = further (λ x y. IsBelow y x) i e d
  Decides-step older i e d = further IsBelow i e d
  Decides-step same i e d = λ l le. upto i e l le (λ le'. d l le')

  compare_from-Decides :
      (k i : ℕ)
      → length as' ≤ i + k
      → length bs ≤ i + k
      → Decides (compare_from k i as' bs) i as' bs
  unfolding compare_from
  compare_from-Decides zero i h g = λ l le.
      number_past as' l (omega (arith, h, le)) ∙ sym (number_past bs l (omega (arith, g, le)))
  compare_from-Decides (suc k) i h g =
      let x = number_at as' i in
      let y = number_at bs i in
      rw (part_at_lem as' i, part_at_lem bs i)
        (elim (Bool-cases (nat_beq x y)) [
          | inl e ↦ rw e (
              Decides-step (compare_from k (i + 1) as' bs) i ((nat_beq_iff x y).0 e)
                (compare_from-Decides k (i + 1) (omega (arith, h)) (omega (arith, g))))
          | inr n ↦ elim (Bool-cases (ltb (int_key y) (int_key x))) [
            | inl more ↦
                rw (n, more)
                  (at_once (λ x y. IsBelow y x) i
                    (below y x (number_at_lt bs i) (number_at_lt as' i) (ground (arith, more))))
            | inr less ↦
                rw (n, less)
                  (at_once IsBelow i (
                    below x y (number_at_lt as' i) (number_at_lt bs i) (
                      keys_apart x y (number_at_lt as' i) (number_at_lt bs i) (ground (arith, n))
                        less)))
          ]
        ])

-- CompareVersions cuts both texts at their dots, and finds the first part in which they differ, where
-- a part counts as its decimal number, as 64-bit int, and as 0 if it is not there or not all digits.
-- It says newer if that of the first is greater, older if it is smaller, and same just if no part
-- differs.
pub compare_versions-Decides :
    (a b : Text)
    → (as' : List Text) × ((bs : List Text) × IsCut a as'
        × IsCut b bs
        × Decides (compare_versions a b) 0 as' bs)
unfolding compare_versions
compare_versions-Decides a b = (
  split_dots a,
  (
    split_dots b,
    split_dots-IsCut a,
    split_dots-IsCut b,
    compare_from-Decides (split_dots a) (split_dots b) _ 0 (ground arith) (ground arith),
  ),
)
