-- ===== src/Proxy/Closing.antt =====
-- cmd/claw/proxy_manager.go: CloseAll leaves no connection open.
use clianywhere_daemon.Prelude.{
  if◌then◌else◌, ℕ, true, false, some, [], ◌∷◌, ◌≡◌, ◌≢◌, refl, sym, ap, ◌∙◌, inl, inr, Key, ◌==◌,
  nat_key, string_key, Bool-cases,
}
use clianywhere_daemon.Prelude.Assoc.{Map, lookup}
use clianywhere_daemon.Proxy.Conns.{ProxyConn, Pool, close_conn, close_conns, close_all}
use clianywhere_daemon.Proxy.Tracking.{IsTracked, close_conn-Was}

module _ {ℓ} {K : Type ℓ} ⦃key : Key K⦄ where
  -- What stands at a place after the connections of a table are closed.
  abbrev WasOutside : Map K ℕ → ℕ → Map ℕ (ProxyConn K) → ProxyConn K → Type ℓ
  WasOutside conns q store c' =
      (c : ProxyConn K) × (lookup q store ≡ some c)
      × (c'.key ≡ c.key)
      × (c'.closed ≡ false → (c.closed ≡ false) × ((k : K) → lookup k conns ≢ some q))

  close_conns-Was :
      (conns : Map K ℕ) (q : ℕ) (store : Map ℕ (ProxyConn K)) (c' : ProxyConn K)
      → lookup q (close_conns conns store) ≡ some c'
      → WasOutside conns q store c'
  unfolding close_conns lookup
  close_conns-Was [] q store c' e = (c', e, refl, λ o. (o, λ k found. cc))
  close_conns-Was ((j, place) ∷ rest) q store c' e =
      let (c, found, same, live) = close_conns-Was rest q (close_conn place store) c' e in
      let (c0, found0, same0, live0) = close_conn-Was place q store c found in
      (
        c0,
        found0,
        same ∙ same0,
        λ o.
            let (open_c, outside) = live o in
            let (open_c0, away) = live0 open_c in
            (
              open_c0,
              λ k at. elim (Bool-cases (j == k)) [
                | inl t ↦ away (cc (ap (λ b. if b then some place else lookup k rest) (sym t) ∙ at))
                | inr f ↦ outside k (ap (λ b. if b then some place else lookup k rest) (sym f) ∙ at)
              ],
            ),
      )

  -- CloseAll empties the table, and what was open is closed.
  pub close_all_lem :
      (p : Pool K)
      → IsTracked p
      → IsTracked (close_all p)
        × ((q : ℕ) (c : ProxyConn K) → lookup q (close_all p).store ≡ some c → c.closed ≡ true)
  unfolding close_all lookup
  close_all_lem p h = (
    record {
      named = λ k q e. cc;
      listed = λ q c e.
          let (c0, found, same, live) = close_conns-Was p.conns q p.store c e in
          ((h.listed q c0 found).0, λ o. cc (all_closed q c e, o));
    },
    all_closed,
  )
    where
      all_closed :
          (q : ℕ) (c : ProxyConn K)
          → lookup q (close_conns p.conns p.store) ≡ some c
          → c.closed ≡ true
      all_closed q c e = elim (Bool-cases c.closed) [
        | inl t ↦ t
        | inr o ↦
            let (c0, found, same, live) = close_conns-Was p.conns q p.store c e in
            let (open_c0, outside) = live o in
            absurd (outside c0.key ((h.listed q c0 found).1 open_c0))
      ]
