-- ===== src/Sessions/Tables.antt =====
-- cmd/claw/pty.go: what holds between the table, the order and the list of sessions.
use clianywhere_daemon.Prelude.{
  beq_ne_sym, ap₂, subst, ℕ, ◌<◌, Option, none, some, List, [], ◌∷◌, String, ◌≡◌, ◌≢◌, refl, sym,
  ap, ◌∙◌, All, Option-cases, Bool-cases, inl, inr, if◌then◌else◌, string_key, nat_key, ◌==◌,
  beq_true, beq_refl, beq_ne,
}
use clianywhere_daemon.Prelude.Assoc.{
  lookup-insert_ne, lookup-insert_eq, lookup-delete_ne, Map, lookup, insert, delete,
}
use clianywhere_daemon.Protocol.{SessionInfo}
use clianywhere_daemon.Sessions.{
  append_info, info_at, Session, PtyManager, session_info, list_from, remove_order,
}

-- Other than an id.
abbrev pub Without : String → List String → Type 0
Without id = All (λ (k : String). k ≢ id)

abbrev pub Distinct : List String → Type 0
Distinct [] = Unit
Distinct (k ∷ ks) = Without k ks × Distinct ks

-- The list with the sessions of an id left out.
unfoldable pub remove_info : String → List SessionInfo → List SessionInfo
remove_info id [] = []
remove_info id (i ∷ is) = let rest = remove_info id is in if i.id == id then rest else i ∷ rest

-- An entry has the id that it was looked up under.
abbrev Named : String → Option SessionInfo → Type 0
Named k none = Unit
Named k (some i) = i.id ≡ k

nothing : (id : String) → [] ≡ remove_info id []
unfolding remove_info
nothing id = refl

remove-append_ne :
    (id k : String) (o : Option SessionInfo) (is : List SessionInfo)
    → Named k o
    → k ≢ id
    → remove_info id (append_info o is) ≡ append_info o (remove_info id is)
unfolding remove_info append_info
remove-append_ne id k none is n h = refl
remove-append_ne id k (some i) is n h = rw (beq_ne i.id id (λ e. h (sym n ∙ e))) refl

remove-append_eq :
    (id k : String) (o : Option SessionInfo) (is : List SessionInfo)
    → Named k o
    → k ≡ id
    → remove_info id (append_info o is) ≡ remove_info id is
unfolding remove_info append_info
remove-append_eq id k none is n h = refl
remove-append_eq id k (some i) is n h = rw (ap (λ (j : String). j == id) (n ∙ h) ∙ beq_refl id) refl

module _ {Screen : Type 0} where
  -- The session under a key of the table is at its place, with the key as its id.
  abbrev pub Holds : Map ℕ (Session Screen) → Map String ℕ → ℕ → Type 0
  Holds store table count =
      (k : String) (p : ℕ)
      → lookup k table ≡ some p
      → (p < count) × ((s : Session Screen) × (lookup p store ≡ some s) × (s.id ≡ k))

  pub record IsTable (m : PtyManager Screen) : Type 0 where
    pub holds : Holds m.store m.sessions m.allocated
    pub distinct : Distinct m.order
    pub ordered : All (λ (k : String). lookup k m.sessions ≢ none) m.order

  module _ (store : Map ℕ (Session Screen)) where
    pub list-delete :
        (id : String) (table : Map String ℕ) (ks : List String)
        → Without id ks
        → list_from store (delete id table) ks ≡ list_from store table ks
    unfolding list_from
    list-delete id table [] h = refl
    list-delete id table (k ∷ ks) h =
        ap₂ append_info
          (ap (info_at store) (lookup-delete_ne id k table (beq_ne id k (λ e. h.0 (sym e)))))
          (list-delete id table ks h.1)

    info_at-Named :
        (table : Map String ℕ) (count : ℕ) (k : String)
        → Holds store table count
        → Named k (info_at store (lookup k table))
    unfolding info_at session_info
    info_at-Named table count k holds = elim (Option-cases (lookup k table)) [
      | inl e ↦ rw (e, info_at) tt
      | inr (p, e) ↦
          let (below, here) = holds k p e in
          let (s, at, same) = here in rw (e, info_at) (rw (at, info_at) same)
    ]

    pub list-none :
        (id : String) (table : Map String ℕ) (count : ℕ) (ks : List String)
        → Holds store table count
        → Without id ks
        → remove_info id (list_from store table ks) ≡ list_from store table ks
    unfolding list_from remove_info
    list-none id table count [] holds h = refl
    list-none id table count (k ∷ ks) holds h =
        remove-append_ne id k (info_at store (lookup k table)) (list_from store table ks)
          (info_at-Named table count k holds) h.0
        ∙ ap (append_info (info_at store (lookup k table))) (list-none id table count ks holds h.1)

    -- Taking an id out of the table and of the order takes its session off the list.
    pub list-remove :
        (id : String) (table : Map String ℕ) (count : ℕ) (ks : List String)
        → Holds store table count
        → Distinct ks
        → list_from store (delete id table) (remove_order id ks)
          ≡ remove_info id (list_from store table ks)
    unfolding list_from remove_order
    list-remove id table count [] holds h = nothing id
    list-remove id table count (k ∷ ks) holds h = elim (Bool-cases (k == id)) [
      | inl e ↦
          let same : k ≡ id = beq_true k id e in
          let away : Without id ks = subst (λ (j : String). Without j ks) same h.0 in
          rw e (
            list-delete id table ks away
            ∙ sym (list-none id table count ks holds away)
            ∙ sym (
                remove-append_eq id k (info_at store (lookup k table)) (list_from store table ks)
                  (info_at-Named table count k holds) same))
      | inr e ↦ rw e (
          ap₂ append_info (ap (info_at store) (lookup-delete_ne id k table (beq_ne_sym k id e)))
            (list-remove id table count ks holds h.1)
          ∙ sym (
              remove-append_ne id k (info_at store (lookup k table)) (list_from store table ks)
                (info_at-Named table count k holds) (λ q. cc (e, beq_refl k, q))))
    ]

  -- A change that leaves a session's entry leaves the list.
  pub list-change :
      (store : Map ℕ (Session Screen)) (table : Map String ℕ) (p : ℕ) (s t : Session Screen)
      → lookup p store ≡ some s
      → session_info t ≡ session_info s
      → (ks : List String) → list_from (insert p t store) table ks ≡ list_from store table ks
  unfolding list_from info_at
  list-change store table p s t at same [] = refl
  list-change store table p s t at same (k ∷ ks) =
      ap₂ append_info (info_at-change (lookup k table)) (list-change store table p s t at same ks)
    where
      info_at-change : (o : Option ℕ) → info_at (insert p t store) o ≡ info_at store o
      info_at-change none = refl
      info_at-change (some q) = elim (Bool-cases (p == q)) [
        | inl e ↦
            rw (lookup-insert_eq p q t store e, info_at)
              (rw (ap (λ (n : ℕ). lookup n store) (sym (beq_true p q e)) ∙ at, info_at)
                (ap some same))
        | inr e ↦ rw (lookup-insert_ne p q t store e, info_at) refl
      ]
