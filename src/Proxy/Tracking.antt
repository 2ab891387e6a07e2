-- ===== src/Proxy/Tracking.antt =====
-- cmd/claw/proxy_manager.go: a connection is open exactly as long as the table has it.
use clianywhere_daemon.Prelude.{
  ℕ, ◌<◌, true, false, none, some, ◌≡◌, ◌≢◌, refl, sym, ap, ◌∙◌, inl, inr, arith, Key, ◌==◌,
  nat_key, string_key, Option-cases, Bool-cases, beq_true, beq_refl, beq_ne, nat_beq_iff,
}
use clianywhere_daemon.Prelude.Assoc.{
  Map, lookup, insert, delete, lookup-delete, lookup-insert_eq, lookup-insert_ne, lookup-delete_ne,
}
use clianywhere_daemon.Proxy.Conns.{ProxyConn, Pool, empty_pool, close_conn, register, remove_conn}

module _ {ℓ} {K : Type ℓ} ⦃key : Key K⦄ where
  -- What the table names is open, under its key, and what is open is in the table.
  pub record IsTracked (p : Pool K) : Type ℓ where
    pub named :
        (k : K) (place : ℕ)
        → lookup k p.conns ≡ some place
        → (place < p.allocated)
          × ((c : ProxyConn K) × (lookup place p.store ≡ some c) × (c.key ≡ k) × (c.closed ≡ false))
    pub listed :
        (place : ℕ) (c : ProxyConn K)
        → lookup place p.store ≡ some c
        → (place < p.allocated) × (c.closed ≡ false → lookup c.key p.conns ≡ some place)

  pub empty_pool-IsTracked : IsTracked empty_pool
  unfolding empty_pool lookup
  empty_pool-IsTracked = record { named = λ k place e. cc; listed = λ place c e. cc }

  -- What stands at a place after `close_conn place`: what stood there, no longer open at `place`.
  abbrev pub Was : ℕ → ℕ → Map ℕ (ProxyConn K) → ProxyConn K → Type ℓ
  Was place q store c' =
      (c : ProxyConn K) × (lookup q store ≡ some c)
      × (c'.key ≡ c.key)
      × (c'.closed ≡ false → (c.closed ≡ false) × (place ≢ q))

  pub close_conn-Was :
      (place q : ℕ) (store : Map ℕ (ProxyConn K)) (c' : ProxyConn K)
      → lookup q (close_conn place store) ≡ some c'
      → Was place q store c'
  unfolding close_conn
  close_conn-Was place q store c' e = elim (Option-cases (lookup place store)) [
    | inl none_there ↦
        let same : lookup q store ≡ some c' = rw (none_there, close_conn) at e in
        (c', same, refl, λ o. (o, λ at. cc (none_there, same, at)))
    | inr (c, there) ↦
        let found : lookup q (insert place (record c { closed = true }) store) ≡ some c' =
          rw (there, close_conn) at e in
        elim (Bool-cases (place == q)) [
          | inl at ↦
              let now : some (record c { closed = true }) ≡ some c' =
                sym (lookup-insert_eq place q (record c { closed = true }) store at) ∙ found in
              (
                c,
                ap (λ (n : ℕ). lookup n store) (sym (beq_true place q at)) ∙ there,
                cc now,
                λ o. cc (now, o),
              )
          | inr away ↦ (
            c',
            sym (lookup-insert_ne place q (record c { closed = true }) store away) ∙ found,
            refl,
            λ o. (o, λ at. cc (away, at, beq_refl q)),
          )
        ]
  ]

  close_conn_ne :
      (place q : ℕ) (store : Map ℕ (ProxyConn K))
      → place ≢ q
      → lookup q (close_conn place store) ≡ lookup q store
  unfolding close_conn
  close_conn_ne place q store away = elim (Option-cases (lookup place store)) [
    | inl e ↦ rw (e, close_conn) refl
    | inr (c, e) ↦
        rw (e, close_conn)
          (lookup-insert_ne place q (record c { closed = true }) store (beq_ne place q away))
  ]

  module _ (p : Pool K) (h : IsTracked p) where
    register-named :
        (k k' : K) (place : ℕ)
        → lookup k' (register k p).conns ≡ some place
        → (place < (register k p).allocated)
          × ((c : ProxyConn K) × (lookup place (register k p).store ≡ some c)
              × (c.key ≡ k')
              × (c.closed ≡ false))
    unfolding register
    register-named k k' place e = elim (Bool-cases (k == k')) [
      | inl q ↦
          let at : p.allocated ≡ place = cc (lookup-insert_eq k k' p.allocated p.conns q, e) in
          (
            omega (arith, at),
            (
              record { key = k; closed = false },
              lookup-insert_eq p.allocated place (record { key = k; closed = false }) p.store
                  ((nat_beq_iff p.allocated place).1 at),
              beq_true k k' q,
              refl,
            ),
          )
      | inr q ↦
          let (below, here) =
            h.named k' place (sym (lookup-insert_ne k k' p.allocated p.conns q) ∙ e) in
          let (c, found, same, live) = here in
          (
            omega (arith, below),
            (
              c,
              lookup-insert_ne p.allocated place (record { key = k; closed = false }) p.store
                    (ground (arith, below))
                  ∙ found,
              same,
              live,
            ),
          )
    ]

    register-listed :
        (k : K)
        → lookup k p.conns ≡ none
        → (place : ℕ) (c : ProxyConn K) → lookup place (register k p).store ≡ some c
        → (place < (register k p).allocated)
          × (c.closed ≡ false → lookup c.key (register k p).conns ≡ some place)
    unfolding register
    register-listed k fresh place c e = elim (Bool-cases (p.allocated == place)) [
      | inl q ↦
          let now : some (record { key = k; closed = false }) ≡ some c =
            sym (lookup-insert_eq p.allocated place (record { key = k; closed = false }) p.store q)
            ∙ e in
          let at : p.allocated ≡ place = beq_true p.allocated place q in
          let same : k ≡ c.key = cc now in
          (
            omega (arith, at),
            λ o.
                ap (λ (j : K). lookup j (insert k p.allocated p.conns)) (sym same)
                ∙ lookup-insert_eq k k p.allocated p.conns (beq_refl k)
                ∙ ap some at,
          )
      | inr q ↦
          let (below, live) = h.listed place c (
            sym (lookup-insert_ne p.allocated place (record { key = k; closed = false }) p.store q)
            ∙ e) in
          (
            omega (arith, below),
            λ o.
                lookup-insert_ne k c.key p.allocated p.conns
                  (beq_ne k c.key (λ same. cc (fresh, live o, same)))
                ∙ live o,
          )
    ]

    pub register-IsTracked : (k : K) → lookup k p.conns ≡ none → IsTracked (register k p)
    register-IsTracked k fresh = record {
      named = register-named k;
      listed = register-listed k fresh;
    }

    removed-IsTracked :
        (k : K) (place : ℕ)
        → lookup k p.conns ≡ some place
        → IsTracked (record p { store = close_conn place p.store; conns = delete k p.conns })
    removed-IsTracked k place e = record {
      named = λ k' q e'. elim (Bool-cases (k == k')) [
        | inl same ↦ cc (lookup-delete k k' p.conns, same, e')
        | inr other ↦
            let (below, here) = h.named k' q (sym (lookup-delete_ne k k' p.conns other) ∙ e') in
            let (c, found, named, live) = here in
            (
              below,
              (
                c,
                close_conn_ne place q p.store
                      (λ at. differs k k' place q c e other (at, found, named))
                    ∙ found,
                named,
                live,
              ),
            )
      ];
      listed = λ q c' e'.
          let (c, found, same, live) = close_conn-Was place q p.store c' e' in
          let (below, at) = h.listed q c found in
          (
            below,
            λ o.
                let (open_then, away) = live o in
                lookup-delete_ne k c'.key p.conns
                  (beq_ne k c'.key (λ same'. away (cc (at open_then, e, same, same'))))
                ∙ ap (λ (j : K). lookup j p.conns) same
                ∙ at open_then,
          );
    }
      where
        differs :
            (k k' : K) (place q : ℕ) (c : ProxyConn K)
            → lookup k p.conns ≡ some place
            → (k == k') ≡ false
            → (place ≡ q) × (lookup q p.store ≡ some c) × (c.key ≡ k')
            → ⊥
        differs k k' place q c e other (at, found, named) =
            let (below, here) = h.named k place e in
            let (c', found', named', live') = here in
            cc (at, found, named, found', named', other, beq_refl k)

    pub remove_conn-IsTracked : (k : K) → IsTracked (remove_conn k p)
    unfolding remove_conn
    remove_conn-IsTracked k = elim (Option-cases (lookup k p.conns)) [
      | inl e ↦ rw (e, remove_conn) h
      | inr (place, e) ↦ rw (e, remove_conn) (removed-IsTracked k place e)
    ]
