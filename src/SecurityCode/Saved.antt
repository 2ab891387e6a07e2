-- ===== src/SecurityCode/Saved.antt =====
-- cmd/claw/security_code.go: what is saved is loaded, and nothing else.
use clianywhere_daemon.Prelude.{
  ◌∙◌, Bool, Option-cases, if-holds, ℕ, true, false, not, ◌&&◌, ◌||◌, none, some, [], ◌∷◌, ◌≡◌, ◌⊎◌,
  inl, inr, refl, ap, arith, ltb, Bool-cases,
}
use clianywhere_daemon.Text.{Text, is_space, trim_space, trim_left, trim_right, is_blank}
use clianywhere_daemon.SecurityCode.{
  all_digits, is_valid_sec_code, Disk, CodeFile, save_security_code, load_security_code,
  has_security_code,
}

digit_no_space : (c : ℕ) → (ltb c b'0' || ltb b'9' c) ≡ false → is_space c ≡ false
unfolding is_space
digit_no_space c h = ground arith

trim_right-digits : (s : Text) → all_digits s ≡ true → trim_right s ≡ s
unfolding all_digits trim_right
trim_right-digits [] h = refl
trim_right-digits (c ∷ s) h = ground (arith, trim_right-digits s, digit_no_space c)

trim_left-digits : (s : Text) → all_digits s ≡ true → trim_left s ≡ s
unfolding all_digits trim_left
trim_left-digits [] h = refl
trim_left-digits (c ∷ s) h = ground (arith, digit_no_space c)

trim_space-code : (s : Text) → is_valid_sec_code s ≡ true → trim_space s ≡ s
unfolding is_valid_sec_code trim_space
trim_space-code s h = ground (arith, trim_left-digits s, trim_right-digits s)

-- What LoadSecurityCode can return, and that HasSecurityCode tells the two apart.
abbrev Loads : Text → Type 0
Loads code =
    ((is_valid_sec_code code ≡ true) × (not (is_blank code) ≡ true))
    ⊎ ((code ≡ []) × (not (is_blank code) ≡ false))

valid-Loads : (code : Text) → is_valid_sec_code code ≡ true → Loads code
unfolding is_valid_sec_code
valid-Loads [] h = cc
valid-Loads (c ∷ code) h = inl (h, refl)

loaded :
    (disk : Disk) (f : CodeFile)
    → ((is_valid_sec_code (load_security_code disk f) ≡ true) × (has_security_code disk f ≡ true))
      ⊎ ((load_security_code disk f ≡ []) × (has_security_code disk f ≡ false))
unfolding load_security_code has_security_code
loaded disk none = inr (refl, refl)
loaded disk (some content) =
    if-holds Loads (not disk.has_home) (λ e. inr (refl, refl))
      (λ e.
        if-holds Loads (not (is_valid_sec_code (trim_space content))) (λ bad. inr (refl, refl))
          (λ good. valid-Loads (trim_space content) (ground arith)))

-- What SaveSecurityCode does: it takes the code, which LoadSecurityCode returns then; it refuses it
-- and leaves the file; or the write fails and leaves what it leaves.
abbrev pub Takes : Disk → Text → CodeFile → Type 0
Takes disk code f =
    (save_security_code disk code f ≡ (some code, true))
    × (is_valid_sec_code code ≡ true)
    × (load_security_code disk (save_security_code disk code f).0 ≡ code)

abbrev pub Refuses : Disk → Text → CodeFile → Type 0
Refuses disk code f =
    (save_security_code disk code f ≡ (f, false))
    × ((is_valid_sec_code code && (disk.has_dir && disk.has_home)) ≡ false)

abbrev pub Breaks : Disk → Text → CodeFile → Type 0
Breaks disk code f =
    (left : CodeFile) × (disk.write_leaves ≡ some left)
    × (save_security_code disk code f ≡ (left, false))

loads_valid :
    (disk : Disk) (code : Text)
    → is_valid_sec_code code ≡ true
    → disk.has_home ≡ true
    → load_security_code disk (some code) ≡ code
unfolding load_security_code
loads_valid disk code valid home = ground (arith, trim_space-code code)

module _ (disk : Disk) (code : Text) (f : CodeFile) where
  refused :
      (is_valid_sec_code code && (disk.has_dir && disk.has_home)) ≡ false → Refuses disk code f
  unfolding save_security_code
  refused h = (ground (arith, h), h)

  taken :
      is_valid_sec_code code ≡ true
      → (disk.has_dir && disk.has_home) ≡ true
      → disk.write_leaves ≡ none
      → Takes disk code f
  unfolding save_security_code
  taken valid ready works =
      let writes : save_security_code disk code f ≡ (some code, true) =
        rw (valid, ready, works, save_security_code) refl in
      (
        writes,
        valid,
        ap (λ (r : CodeFile × Bool). load_security_code disk r.0) writes
            ∙ loads_valid disk code valid (ground (arith, ready)),
      )

  broken :
      (left : CodeFile)
      → is_valid_sec_code code ≡ true
      → (disk.has_dir && disk.has_home) ≡ true
      → disk.write_leaves ≡ some left
      → Breaks disk code f
  unfolding save_security_code
  broken left valid ready fails = (left, fails, rw (valid, ready, fails, save_security_code) refl)

  -- SaveSecurityCode takes a code, which is then valid and is what LoadSecurityCode returns after
  -- that; or, just where the code is not valid or there is no directory for it, returns an error and
  -- leaves the file as it was; or returns an error because os.WriteFile fails, and then the file is
  -- what that leaves. What LoadSecurityCode returns from any file is either valid or empty, and
  -- HasSecurityCode tells which.
  pub load-save :
      (Takes disk code f ⊎ (Refuses disk code f ⊎ Breaks disk code f))
      × (((is_valid_sec_code (load_security_code disk f) ≡ true)
            × (has_security_code disk f ≡ true))
          ⊎ ((load_security_code disk f ≡ []) × (has_security_code disk f ≡ false)))
  load-save = (
    elim (Bool-cases (is_valid_sec_code code && (disk.has_dir && disk.has_home))) [
      | inr bad ↦ inr (inl (refused bad))
      | inl good ↦ elim (Option-cases disk.write_leaves) [
        | inl works ↦ inl (taken (ground (arith, good)) (ground (arith, good)) works)
        | inr (left, fails) ↦
            inr (inr (broken left (ground (arith, good)) (ground (arith, good)) fails))
      ]
    ],
    loaded disk f,
  )
