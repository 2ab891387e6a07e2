-- ===== src/Sessions/Creation.antt =====
-- cmd/claw/pty.go: what Create does to the list of sessions.
use clianywhere_daemon.Prelude.{
  ap₂, ℕ, ◌+◌, ◌<◌, Option, none, some, List, [], ◌∷◌, ◌++◌, String, ◌≡◌, ◌≢◌, refl, sym, ap, ◌∙◌,
  arith, All-append, All-map, Option-cases, Bool-cases, inl, inr, string_key, nat_key, ◌==◌,
  beq_true, beq_refl, beq_ne, nat_beq_iff,
}
use clianywhere_daemon.Prelude.Assoc.{lookup-insert_ne, lookup-insert_eq, Map, lookup, insert}
use clianywhere_daemon.Protocol.{SessionInfo}
use clianywhere_daemon.Sessions.{
  append_info, info_at, Session, PtyManager, session_info, list_from, list_sessions,
}
use clianywhere_daemon.Sessions.Tables.{Without, Distinct, Holds, IsTable}
use clianywhere_daemon.Sessions.Steps.{Lists, Ordered-Without}

abbrev NotNone : Map String ℕ → String → Type 0
NotNone table k = lookup k table ≢ none

Distinct-snoc :
    (id : String) (ks : List String) → Distinct ks → Without id ks → Distinct (ks ++ id ∷ [])
Distinct-snoc id [] d w = (tt, tt)
Distinct-snoc id (k ∷ ks) d w = (
  All-append (λ (j : String). j ≢ k) ks (id ∷ []) d.0 ((λ e. w.0 (sym e)), tt),
  Distinct-snoc id ks d.1 w.1,
)

insert-Ordered :
    (id : String) (p : ℕ) (table : Map String ℕ) (k : String)
    → NotNone table k
    → NotNone (insert id p table) k
insert-Ordered id p table k h e = elim (Bool-cases (id == k)) [
  | inl q ↦ cc (lookup-insert_eq id k p table q, e)
  | inr q ↦ h (sym (lookup-insert_ne id k p table q) ∙ e)
]

append_info-append :
    (o : Option SessionInfo) (xs ys : List SessionInfo)
    → append_info o (xs ++ ys) ≡ append_info o xs ++ ys
unfolding append_info
append_info-append none xs ys = refl
append_info-append (some i) xs ys = refl

module _ {Screen : Type 0} (m : PtyManager Screen) (h : IsTable m) (s : Session Screen) where
  -- The manager with a session more; the counter of names plays no part.
  abbrev with_session : ℕ → PtyManager Screen
  with_session counter = record m {
    store = insert m.allocated s m.store;
    allocated = m.allocated + 1;
    sessions = insert s.id m.allocated m.sessions;
    order = m.order ++ s.id ∷ [];
    name_counter = counter;
  }

  store' : Map ℕ (Session Screen)
  store' = insert m.allocated s m.store

  table' : Map String ℕ
  table' = insert s.id m.allocated m.sessions

  old_place : (p : ℕ) → p < m.allocated → lookup p store' ≡ lookup p m.store
  unfolding store'
  old_place p below = lookup-insert_ne m.allocated p s m.store (ground arith)

  created-Holds : Holds store' table' (m.allocated + 1)
  unfolding store' table'
  created-Holds k p e = elim (Bool-cases (s.id == k)) [
    | inl q ↦
        let place : m.allocated ≡ p = cc (lookup-insert_eq s.id k m.allocated m.sessions q, e) in
        (
          omega (arith, place),
          (
            s,
            lookup-insert_eq m.allocated p s m.store ((nat_beq_iff m.allocated p).1 place),
            beq_true s.id k q,
          ),
        )
    | inr q ↦
        let (below, here) =
          h.holds k p (sym (lookup-insert_ne s.id k m.allocated m.sessions q) ∙ e) in
        let (t, found, named) = here in
        (omega (arith, below), (t, old_place p below ∙ found, named))
  ]

  entry_kept :
      (k : String)
      → s.id ≢ k
      → info_at store' (lookup k table') ≡ info_at m.store (lookup k m.sessions)
  unfolding table' info_at
  entry_kept k other =
      ap (info_at store') (lookup-insert_ne s.id k m.allocated m.sessions (beq_ne s.id k other))
      ∙ elim (Option-cases (lookup k m.sessions)) [
        | inl e ↦ rw (e, info_at) refl
        | inr (p, e) ↦ rw (e, info_at) (rw (old_place p (h.holds k p e).0, info_at) refl)
      ]

  new_entry : info_at store' (lookup s.id table') ≡ some (session_info s)
  unfolding store' table' info_at
  new_entry =
      rw (lookup-insert_eq s.id s.id m.allocated m.sessions (beq_refl s.id), info_at)
        (rw (lookup-insert_eq m.allocated m.allocated s m.store (beq_refl m.allocated), info_at)
          refl)

  -- The entries of the sessions before it stay.
  list-create :
      (ks : List String)
      → Without s.id ks
      → list_from store' table' ks ≡ list_from m.store m.sessions ks
  unfolding list_from
  list-create [] w = refl
  list-create (k ∷ ks) w = ap₂ append_info (entry_kept k (λ e. w.0 (sym e))) (list-create ks w.1)

  list-snoc :
      (ks : List String)
      → list_from store' table' (ks ++ s.id ∷ [])
        ≡ list_from store' table' ks ++ session_info s ∷ []
  unfolding list_from append_info
  list-snoc [] = ap (λ o. append_info o []) new_entry
  list-snoc (k ∷ ks) =
      ap (append_info (info_at store' (lookup k table'))) (list-snoc ks)
      ∙ append_info-append (info_at store' (lookup k table')) (list_from store' table' ks)
          (session_info s ∷ [])

  pub created-Lists :
      (counter : ℕ)
      → lookup s.id m.sessions ≡ none
      → Lists m h (with_session counter) (list_sessions m ++ session_info s ∷ [])
  unfolding list_sessions store' table'
  created-Lists counter fresh = (
    record {
      holds = created-Holds;
      distinct = Distinct-snoc s.id m.order h.distinct away;
      ordered =
          All-append (NotNone table') m.order (s.id ∷ [])
            (All-map (NotNone m.sessions) (NotNone table')
              (insert-Ordered s.id m.allocated m.sessions) m.order h.ordered)
            ((λ e. cc (lookup-insert_eq s.id s.id m.allocated m.sessions (beq_refl s.id), e)), tt);
    },
    list-snoc m.order ∙ ap (λ l. l ++ session_info s ∷ []) (list-create m.order away),
  )
    where
      away : Without s.id m.order
      away = Ordered-Without s.id m.sessions m.order fresh h.ordered
