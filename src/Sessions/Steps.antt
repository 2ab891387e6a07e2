-- ===== src/Sessions/Steps.antt =====
-- cmd/claw/pty.go: what taking a session out of the table does to the list.
use clianywhere_daemon.Prelude.{
  nat_beq, beq_refl, ◌⊎◌, if◌then◌else◌, beq_ne_sym, subst, if-holds, ℕ, Option, none, some, List,
  [], ◌∷◌, String, ◌≡◌, ◌≢◌, refl, sym, ap, ◌∙◌, arith, All, Option-cases, Bool-cases, inl, inr,
  string_key, nat_key, ◌==◌, beq_true, beq_ne,
}
use clianywhere_daemon.Prelude.Assoc.{
  lookup-delete_ne, lookup-insert_ne, lookup-insert_eq, Map, lookup, insert, delete, lookup-delete,
}
use clianywhere_daemon.Protocol.{SessionInfo}
use clianywhere_daemon.Sessions.{
  Session, PtyManager, session_info, list_from, remove_order, change_session, take_out, destroy,
  wait_exit, destroy_all, list_sessions, close,
}
use clianywhere_daemon.Sessions.Tables.{
  list-none, Without, Distinct, remove_info, Holds, IsTable, list-remove, list-change,
}

module _ {Screen : Type 0} (m : PtyManager Screen) (h : IsTable m) where
  -- A state in which the table is sound and the list is `infos`.
  abbrev pub Lists : PtyManager Screen → List SessionInfo → Type 0
  Lists m' infos = IsTable m' × (list_sessions m' ≡ infos)

  abbrev pub Quiet : (Session Screen → Session Screen) → Type 0
  Quiet f = (s : Session Screen) → session_info (f s) ≡ session_info s

  insert-Holds :
      (place : ℕ) (s t : Session Screen)
      → lookup place m.store ≡ some s
      → t.id ≡ s.id
      → Holds (insert place t m.store) m.sessions m.allocated
  insert-Holds place s t at same k p e =
      let (below, here) = h.holds k p e in
      let (u, found, named) = here in
      (
        below,
        elim (Bool-cases (place == p)) [
          | inl q ↦ (
            t,
            lookup-insert_eq place p t m.store q,
            same ∙ cc (at, found, named, beq_true place p q),
          )
          | inr q ↦ (u, lookup-insert_ne place p t m.store q ∙ found, named)
        ],
      )

  -- Changing a session in what the list does not show.
  pub changed :
      (f : Session Screen → Session Screen) (place : ℕ)
      → Quiet f
      → Lists (change_session f place m) (list_sessions m)
  unfolding change_session list_sessions session_info
  changed f place quiet = elim (Option-cases (lookup place m.store)) [
    | inl e ↦ rw (e, change_session) (h, refl)
    | inr (s, e) ↦
        rw (e, change_session)
          (
            record {
              holds = insert-Holds place s (f s) e (ap (λ (i : SessionInfo). i.id) (quiet s));
              distinct = h.distinct;
              ordered = h.ordered;
            },
            list-change m.store m.sessions place s (f s) e (quiet s) m.order,
          )
  ]

Without-remove : (j id : String) (ks : List String) → Without j ks → Without j (remove_order id ks)
unfolding remove_order
Without-remove j id [] h = tt
Without-remove j id (k ∷ ks) h =
    if-holds (Without j) (k == id) (λ e. h.1) (λ e. (h.0, Without-remove j id ks h.1))

Distinct-remove : (id : String) (ks : List String) → Distinct ks → Distinct (remove_order id ks)
unfolding remove_order
Distinct-remove id [] h = tt
Distinct-remove id (k ∷ ks) h =
    if-holds Distinct (k == id) (λ e. h.1)
      (λ e. (Without-remove k id ks h.0, Distinct-remove id ks h.1))

-- Each key of the order is in the table.
abbrev Ordered : Map String ℕ → List String → Type 0
Ordered table = All (λ (k : String). lookup k table ≢ none)

delete-Ordered :
    (id : String) (table : Map String ℕ) (ks : List String)
    → Without id ks
    → Ordered table ks
    → Ordered (delete id table) ks
delete-Ordered id table [] w h = tt
delete-Ordered id table (k ∷ ks) w h = (
  λ e. h.0 (sym (lookup-delete_ne id k table (beq_ne id k (λ q. w.0 (sym q)))) ∙ e),
  delete-Ordered id table ks w.1 h.1,
)

remove-Ordered :
    (id : String) (table : Map String ℕ) (ks : List String)
    → Distinct ks
    → Ordered table ks
    → Ordered (delete id table) (remove_order id ks)
unfolding remove_order
remove-Ordered id table [] d h = tt
remove-Ordered id table (k ∷ ks) d h =
    if-holds (Ordered (delete id table)) (k == id)
      (λ e.
        delete-Ordered id table ks (subst (λ (j : String). Without j ks) (beq_true k id e) d.0) h.1)
      (λ e. (
        λ q. h.0 (sym (lookup-delete_ne id k table (beq_ne_sym k id e)) ∙ q),
        remove-Ordered id table ks d.1 h.1,
      ))

pub Ordered-Without :
    (id : String) (table : Map String ℕ) (ks : List String)
    → lookup id table ≡ none
    → Ordered table ks
    → Without id ks
Ordered-Without id table [] e h = tt
Ordered-Without id table (k ∷ ks) e h =
    (λ q. h.0 (ap (λ (j : String). lookup j table) q ∙ e), Ordered-Without id table ks e h.1)

module _ {Screen : Type 0} (m : PtyManager Screen) (h : IsTable m) (id : String) where
  taken : Lists m h (take_out id m) (remove_info id (list_sessions m))
  unfolding take_out list_sessions
  taken = (
    record {
      holds = λ k p e. h.holds k p (ground (arith, lookup-delete id k m.sessions, e));
      distinct = Distinct-remove id m.order h.distinct;
      ordered = remove-Ordered id m.sessions m.order h.distinct h.ordered;
    },
    list-remove m.store id m.sessions m.allocated m.order h.holds h.distinct,
  )

  taken_changed :
      (place : ℕ)
      → Lists m h (change_session close place (take_out id m)) (remove_info id (list_sessions m))
  unfolding close session_info
  taken_changed place =
      let (sound, listed) = changed (take_out id m) taken.0 close place (λ s. refl) in
      (sound, listed ∙ taken.1)

  -- Destroy takes the session off the list, and does nothing for an id that is not in the table.
  pub destroy-Lists : Lists m h (destroy id m) (remove_info id (list_sessions m))
  unfolding destroy list_sessions
  destroy-Lists = elim (Option-cases (lookup id m.sessions)) [
    | inl e ↦
        rw (e, destroy)
          (
            h,
            sym (
                list-none m.store id m.sessions m.allocated m.order h.holds
                  (Ordered-Without id m.sessions m.order e h.ordered)),
          )
    | inr (place, e) ↦ rw (e, destroy) (taken_changed place)
  ]

-- The id of the session at a place, if it is still the one in the table under its id.
abbrev pub live_id : {Screen : Type 0} → PtyManager Screen → ℕ → Option String
live_id m place = elim (lookup place m.store) [
  | none ↦ none
  | some s ↦ elim (lookup s.id m.sessions) [
    | none ↦ none
    | some p ↦ if nat_beq p place then some s.id else none
  ]
]

abbrev pub remove_live : Option String → List SessionInfo → List SessionInfo
remove_live none infos = infos
remove_live (some id) infos = remove_info id infos

-- No other session is in the table under the id of the session at a place.
abbrev pub IsOwn : {Screen : Type 0} → PtyManager Screen → ℕ → Type 0
IsOwn {Screen} m place =
    (s : Session Screen)
    → lookup place m.store ≡ some s
    → (lookup s.id m.sessions ≡ none) ⊎ (lookup s.id m.sessions ≡ some place)

pub live-IsOwn :
    {Screen : Type 0} (m : PtyManager Screen) (place : ℕ) (s : Session Screen)
    → lookup place m.store ≡ some s
    → lookup s.id m.sessions ≡ some place
    → IsOwn m place
live-IsOwn m place s e there t e' =
    let one : some s ≡ some t = sym e ∙ e' in
    let ids : s.id ≡ t.id = cc one in
    inr (ap (λ (k : String). lookup k m.sessions) (sym ids) ∙ there)

module _ {Screen : Type 0} (m : PtyManager Screen) (h : IsTable m) where
  live_id_gone :
      (place : ℕ) (s : Session Screen)
      → lookup place m.store ≡ some s
      → lookup s.id m.sessions ≡ none
      → live_id m place ≡ none
  live_id_gone place s e gone = rw (e, live_id) (rw (gone, live_id) refl)

  live_id_there :
      (place : ℕ) (s : Session Screen)
      → lookup place m.store ≡ some s
      → lookup s.id m.sessions ≡ some place
      → live_id m place ≡ some s.id
  live_id_there place s e there = rw (e, live_id) (rw (there, live_id) (rw (beq_refl place) refl))

  -- The end of a process takes its session off the list, if that has not been destroyed before.
  pub wait_exit-Lists :
      (place : ℕ)
      → IsOwn m place
      → Lists m h (wait_exit place m).0 (remove_live (live_id m place) (list_sessions m))
  unfolding wait_exit list_sessions
  wait_exit-Lists place own = elim (Option-cases (lookup place m.store)) [
    | inl e ↦ rw (e, wait_exit, live_id) (h, refl)
    | inr (s, e) ↦
        let (sound, listed) = taken_changed m h s.id place in
        elim (own s e) [
          | inl gone ↦ rw (live_id_gone place s e gone) (
              rw (e, wait_exit)
                (
                  sound,
                  listed
                      ∙ list-none m.store s.id m.sessions m.allocated m.order h.holds
                          (Ordered-Without s.id m.sessions m.order gone h.ordered),
                ))
          | inr there ↦ rw (live_id_there place s e there) (rw (e, wait_exit) (sound, listed))
        ]
  ]

  pub destroy_all-Lists : Lists m h (destroy_all m) []
  unfolding destroy_all list_sessions list_from lookup
  destroy_all-Lists = (record { holds = λ k p e. cc; distinct = tt; ordered = tt }, refl)
