-- ===== src/Prelude/Assoc.antt =====
-- A Go map as an association list. The order of the list is the order in which a `range` visits
-- the entries; Go leaves that order open, and the laws below do not depend on it.
use mathlib.Core.Path.{◌≡◌, refl, ap, ◌∙◌}
use mathlib.Core.Bool.{true, false}
use mathlib.Core.Option.{Option, none, some}
use mathlib.Core.List.{List, [], ◌∷◌}
use native.Mathlib.Omega.{arith}
use clianywhere_daemon.Prelude.Tests.{Key, ◌==◌, if◌then◌else◌}

abbrev pub Map {ℓ κ} : Type ℓ → Type κ → Type (ℓ ⊔ κ)
Map K V = List (K × V)

module _ {ℓ κ} {K : Type ℓ} {V : Type κ} ⦃key : Key K⦄ where
  unfoldable pub lookup : K → Map K V → Option V
  lookup k [] = none
  lookup k ((held, value) ∷ m) = if held == k then some value else lookup k m

  unfoldable pub insert : K → V → Map K V → Map K V
  insert k v [] = (k, v) ∷ []
  insert k v ((held, old) ∷ m) =
      let rest = insert k v m in if held == k then (k, v) ∷ m else (held, old) ∷ rest

  unfoldable pub delete : K → Map K V → Map K V
  delete k [] = []
  delete k ((held, old) ∷ m) =
      let rest = delete k m in if held == k then rest else (held, old) ∷ rest

  -- A read after a write of `new` under `k`.
  pub lookup-insert :
      (k q : K) (new : V) (m : Map K V)
      → lookup q (insert k new m) ≡ (if k == q then some new else lookup q m)
  unfolding lookup insert
  lookup-insert k q new [] = refl
  lookup-insert k q new ((held, old) ∷ rest) = ground (
    arith,
    lookup-insert k q new rest,
    key.same_iff held q,
    key.same_iff held k,
    key.same_iff k q,
  )

  pub lookup-delete :
      (k q : K) (m : Map K V) → lookup q (delete k m) ≡ (if k == q then none else lookup q m)
  unfolding lookup delete
  lookup-delete k q [] = ground arith
  lookup-delete k q ((held, old) ∷ rest) =
      ground
        (arith, lookup-delete k q rest, key.same_iff held q, key.same_iff held k, key.same_iff k q)

  pub lookup-insert_eq :
      (k q : K) (new : V) (m : Map K V) → (k == q) ≡ true → lookup q (insert k new m) ≡ some new
  lookup-insert_eq k q new m e =
      lookup-insert k q new m ∙ ap (λ b. if b then some new else lookup q m) e

  pub lookup-insert_ne :
      (k q : K) (new : V) (m : Map K V) → (k == q) ≡ false → lookup q (insert k new m) ≡ lookup q m
  lookup-insert_ne k q new m e =
      lookup-insert k q new m ∙ ap (λ b. if b then some new else lookup q m) e

  pub lookup-delete_ne :
      (k q : K) (m : Map K V) → (k == q) ≡ false → lookup q (delete k m) ≡ lookup q m
  lookup-delete_ne k q m e = lookup-delete k q m ∙ ap (λ b. if b then none else lookup q m) e
