-- ===== src/Update/Parts.antt =====
-- internal/checkupdate/checkupdate.go: the parts of a version and their numbers.
use clianywhere_daemon.Prelude.{
  ℕ, zero, suc, ◌+◌, ◌*◌, ◌-◌, ◌^◌, ◌%◌, ◌≤◌, ◌<◌, Bool, true, ◌&&◌, List, [], ◌∷◌, ◌++◌, ◌≡◌, ◌≢◌,
  refl, sym, ap, ◌∙◌, arith, length, ltb, leb, nat_beq, nat_beq_iff, if◌then◌else◌, All, All-append,
  append-nil, append_assoc, Bool-cases, inl, inr, get_or,
}
use clianywhere_daemon.Text.{Text}
use clianywhere_daemon.Update.{part_at, split_dots, split_from, atoi_from, atoi_safe}

-- Parts joined by dots
abbrev pub joined : List Text → Text
joined [] = []
joined (p ∷ []) = p
joined (p ∷ q ∷ ps) = p ++ b'.' ∷ joined (q ∷ ps)

abbrev pub HasNoDot : Text → Type 0
HasNoDot = All (λ (c : ℕ). c ≢ b'.')

-- A text cut at each of its dots
abbrev pub IsCut : Text → List Text → Type 0
IsCut s parts = (joined parts ≡ s) × All HasNoDot parts × (parts ≢ [])

joined_cons : (p : Text) (ps : List Text) → ps ≢ [] → joined (p ∷ ps) ≡ p ++ b'.' ∷ joined ps
joined_cons p [] n = absurd (n refl)
joined_cons p (q ∷ ps) n = refl

split_from-IsCut : (part s : Text) → HasNoDot part → IsCut (part ++ s) (split_from part s)
unfolding split_from
split_from-IsCut part [] h = (sym (append-nil part), (h, tt), λ e. cc)
split_from-IsCut part (c ∷ s) h = elim (Bool-cases (nat_beq c b'.')) [
  | inl e ↦
      let (same, clear, some_there) = split_from-IsCut [] s tt in
      rw e (
        joined_cons part (split_from [] s) some_there
            ∙ ap (λ (t : Text). part ++ b'.' ∷ t) same
            ∙ ap (λ (d : ℕ). part ++ d ∷ s) (sym ((nat_beq_iff c b'.').0 e)),
        (h, clear),
        λ q. cc,
      )
  | inr n ↦
      let (same, clear, some_there) =
        split_from-IsCut (part ++ c ∷ []) s
          (All-append (λ (d : ℕ). d ≢ b'.') part (c ∷ []) h (ground (arith, n), tt)) in
      rw n (same ∙ append_assoc part (c ∷ []) s, clear, some_there)
]

pub split_dots-IsCut : (s : Text) → IsCut s (split_dots s)
unfolding split_dots
split_dots-IsCut s = split_from-IsCut [] s tt

-- The number that digits spell behind `n`, and whether all are digits.
abbrev pub value : ℕ → Text → ℕ
value n [] = n
value n (c ∷ s) = value (n * 10 + (c - b'0')) s

abbrev pub are_digits : Text → Bool
are_digits [] = true
are_digits (c ∷ s) = (leb b'0' c && leb c b'9') && are_digits s

-- The decimal number of a part, as a 64-bit pattern
abbrev pub number : Text → ℕ
number s = if are_digits s then value 0 s % 2 ^ 64 else 0

abbrev pub number_at : List Text → ℕ → ℕ
number_at [] i = 0
number_at (p ∷ ps) zero = number p
number_at (p ∷ ps) (suc i) = number_at ps i

value_mod : (s : Text) (m n : ℕ) → m % 2 ^ 64 ≡ n % 2 ^ 64 → value m s % 2 ^ 64 ≡ value n s % 2 ^ 64
value_mod [] m n h = h
value_mod (c ∷ s) m n h = value_mod s (m * 10 + (c - b'0')) (n * 10 + (c - b'0')) (omega (arith, h))

atoi_from_lem :
    (s : Text) (n : ℕ)
    → n < 2 ^ 64
    → atoi_from n s ≡ (if are_digits s then value n s % 2 ^ 64 else 0)
unfolding atoi_from
atoi_from_lem [] n h = omega arith
atoi_from_lem (c ∷ s) n h =
    let m = (n * 10 + (c - b'0')) % 2 ^ 64 in
    ground
      (arith, atoi_from_lem s m (omega arith), value_mod s m (n * 10 + (c - b'0')) (omega arith))

at_from : (parts : List Text) (i : ℕ) → atoi_safe (get_or parts i []) ≡ number_at parts i
unfolding atoi_safe
at_from [] i = atoi_from_lem [] 0 (omega arith)
at_from (p ∷ ps) zero = atoi_from_lem p 0 (omega arith)
at_from (p ∷ ps) (suc i) = at_from ps i

pub number_past : (parts : List Text) (i : ℕ) → length parts ≤ i → number_at parts i ≡ 0
number_past [] i h = refl
number_past (p ∷ ps) zero h = absurd (omega arith)
number_past (p ∷ ps) (suc i) h = number_past ps i (omega arith)

pub part_at_lem : (parts : List Text) (i : ℕ) → part_at parts i ≡ number_at parts i
unfolding part_at
part_at_lem parts i = elim (Bool-cases (ltb i (length parts))) [
  | inl there ↦ rw there (at_from parts i)
  | inr beyond ↦ rw beyond (sym (number_past parts i (ground (arith, beyond))))
]
