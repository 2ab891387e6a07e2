-- ===== src/Ring/Contents.antt =====
-- The ring of cmd/claw/ring_logger.go holds the newest entries, oldest first.
use clianywhere_daemon.Prelude.{
  ℕ, suc, ◌+◌, ◌-◌, ◌%◌, ◌<◌, ◌≤◌, ◌≡◌, ◌≢◌, sym, ap, ap₂, ◌∙◌, List, [], ◌∷◌, ◌++◌, ◌⊎◌, inl, inr,
  lt→ltb, length, get_or, set, take, drop, length-set, get_or-set_self, get_or-set_ne, arith,
}
use native.Mathlib.Nat.{mod-eq_of_lt, mod-eq-sub-mod}
use native.Mathlib.Decide.{dec_lt}
use clianywhere_daemon.Ring.{
  RingLogger, LogEntry, zero_entry, store, entry_at, read_idx, get_recent,
}
use clianywhere_daemon.Ring.Table.{
  tabulate, tabulate-eq, tabulate-suc, take-tabulate, length-tabulate, drop-tabulate,
}

pub record IsRing (l : RingLogger) : Type 0 where
  pub room : length l.entries ≡ l.capacity
  pub positive : 0 < l.capacity
  pub write_in : l.write_idx < l.capacity
  pub count_in : l.count ≤ l.capacity

-- The entries that the ring holds, oldest first.
unfoldable pub contents : RingLogger → List LogEntry
contents l = tabulate (entry_at l) 0 l.count

pub length-contents : (l : RingLogger) → length (contents l) ≡ l.count
unfolding contents
length-contents l = length-tabulate (entry_at l) 0 l.count

-- GetRecent returns the first `n` entries of those that the ring holds, so the oldest ones; all of
-- them if there are at most `n`.
pub get_recent_lem : (n : ℕ) (l : RingLogger) → get_recent n l ≡ take n (contents l)
unfolding get_recent contents
get_recent_lem n l =
    ap (tabulate (entry_at l) 0) (ground arith) ∙ sym (take-tabulate (entry_at l) 0 n l.count)

pub store-IsRing : (e : LogEntry) (l : RingLogger) → IsRing l → IsRing (store e l)
unfolding store
store-IsRing e l v = ground (arith, length-set l.entries l.write_idx e)

-- An index a step short of a whole turn.
turn : (c a : ℕ) → 0 < c → a < c + c → ((a % c ≡ a) × (a < c)) ⊎ ((a % c + c ≡ a) × (c ≤ a))
turn c a p h = elim (dec_lt a c) [
  | yes q ↦ inl (mod-eq_of_lt q, q)
  | no q ↦ inr (
    omega (
      arith,
      mod-eq-sub-mod {n = a} {m = c} (omega arith),
      mod-eq_of_lt {n = a - c} {m = c} (omega arith),
    ),
    omega arith,
  )
]

-- `(w + 1 + c - (n + 1)) % c` is `(w + c - n) % c`, with the inner sum reduced.
step_both : (c w n : ℕ) → w < c → n < c → ((w + 1) % c + c - (n + 1)) % c ≡ (w + c - n) % c
step_both c w n hw hn =
    let t1 = turn c (w + 1) (omega arith) (omega arith) in
    let t2 = turn c ((w + 1) % c + c - (n + 1)) (omega arith) (omega (arith, t1)) in
    let t3 = turn c (w + c - n) (omega arith) (omega arith) in omega (arith, t1, t2, t3)

step_read : (c w : ℕ) → w < c → ((w + 1) % c + c - c) % c ≡ ((w + c - c) % c + 1) % c
step_read c w hw =
    let t1 = turn c (w + 1) (omega arith) (omega arith) in
    let t2 = turn c ((w + 1) % c + c - c) (omega arith) (omega (arith, t1)) in
    let t3 = turn c (w + c - c) (omega arith) (omega arith) in
    let t4 = turn c ((w + c - c) % c + 1) (omega arith) (omega (arith, t3)) in
    omega (arith, t1, t2, t3, t4)

-- The place of the next entry comes right after the last one, and is none of the others.
index_last : (c w n : ℕ) → w < c → n ≤ c → ((w + c - n) % c + n) % c ≡ w
index_last c w n hw hn =
    let t1 = turn c (w + c - n) (omega arith) (omega arith) in
    let t2 = turn c ((w + c - n) % c + n) (omega arith) (omega (arith, t1)) in omega (arith, t1, t2)

index_ne : (c w n j : ℕ) → w < c → n < c → j < n → ((w + c - n) % c + j) % c ≢ w
index_ne c w n j hw hn hj =
    let t1 = turn c (w + c - n) (omega arith) (omega arith) in
    let t2 = turn c ((w + c - n) % c + j) (omega arith) (omega (arith, t1)) in omega (arith, t1, t2)

-- A full ring: reading starts at the place of the next write.
index_full :
    (c w n j : ℕ)
    → w < c
    → n ≡ c
    → suc j < c
    → (((w + c - n) % c + 1) % c + j) % c ≡ ((w + c - n) % c + (1 + j)) % c
      × (((w + c - n) % c + (1 + j)) % c ≢ w)
index_full c w n j hw hn hj =
    let t1 = turn c (w + c - n) (omega arith) (omega arith) in
    let t2 = turn c ((w + c - n) % c + 1) (omega arith) (omega (arith, t1)) in
    let t3 = turn c (((w + c - n) % c + 1) % c + j) (omega arith) (omega (arith, t1, t2)) in
    let t4 = turn c ((w + c - n) % c + (1 + j)) (omega arith) (omega (arith, t1)) in
    (omega (arith, t1, t2, t3, t4), omega (arith, t1, t4))

index_full_last :
    (c w n k : ℕ) → w < c → n ≡ c → n ≡ suc k → (((w + c - n) % c + 1) % c + k) % c ≡ w
index_full_last c w n k hw hn hk =
    let t1 = turn c (w + c - n) (omega arith) (omega arith) in
    let t2 = turn c ((w + c - n) % c + 1) (omega arith) (omega (arith, t1)) in
    let t3 = turn c (((w + c - n) % c + 1) % c + k) (omega arith) (omega (arith, t1, t2)) in
    omega (arith, t1, t2, t3)

add_zero : (n : ℕ) → 0 + n ≡ n
add_zero n = omega arith

module _ (e : LogEntry) (l : RingLogger) (v : IsRing l) where
  -- Before the ring is full the oldest entry stays where it is, and the new one comes last.
  read_idx-store_room : l.count < l.capacity → read_idx (store e l) ≡ read_idx l
  unfolding store
  read_idx-store_room h =
      rw (lt→ltb l.count l.capacity h) (step_both l.capacity l.write_idx l.count v.write_in h)

  read_idx-store_full : l.count ≡ l.capacity → read_idx (store e l) ≡ (read_idx l + 1) % l.capacity
  unfolding store
  read_idx-store_full h = rw h (ground (arith, step_read l.capacity l.write_idx v.write_in))

  -- An entry of the ring at a place that the write does not reach is unchanged.
  entry-store_old :
      (i j : ℕ)
      → j ≢ l.write_idx
      → i ≡ j
      → get_or (set l.entries l.write_idx e) i zero_entry ≡ get_or l.entries j zero_entry
  entry-store_old i j ne eq =
      ap (λ (k : ℕ). get_or (set l.entries l.write_idx e) k zero_entry) eq
      ∙ get_or-set_ne l.entries l.write_idx j e zero_entry λ h. ne (sym h)

  entry-store_new :
      (i : ℕ) → i ≡ l.write_idx → get_or (set l.entries l.write_idx e) i zero_entry ≡ e
  entry-store_new i eq =
      ap (λ (k : ℕ). get_or (set l.entries l.write_idx e) k zero_entry) eq
      ∙ get_or-set_self l.entries l.write_idx e zero_entry (rw v.room v.write_in)

  pub count-store_room : l.count < l.capacity → RingLogger.count (store e l) ≡ suc l.count
  unfolding store
  count-store_room h = rw (lt→ltb l.count l.capacity h) (omega arith)

  pub count-store_full : l.count ≡ l.capacity → RingLogger.count (store e l) ≡ l.count
  unfolding store
  count-store_full h = ground arith

  pub contents-store_room : l.count < l.capacity → contents (store e l) ≡ contents l ++ e ∷ []
  unfolding contents store
  contents-store_room h =
      let s = store e l in
      let moved : (m : ℕ) → (read_idx s + m) % l.capacity ≡ (read_idx l + m) % l.capacity =
        λ m. ap (λ (r : ℕ). (r + m) % l.capacity) (read_idx-store_room h) in
      ap (tabulate (entry_at s) 0) (count-store_room h)
      ∙ tabulate-suc (entry_at s) 0 l.count
      ∙ ap₂ ◌++◌
          (tabulate-eq (entry_at s) (entry_at l) 0 0 l.count λ m lt.
            entry-store_old ((read_idx s + (0 + m)) % l.capacity)
              ((read_idx l + (0 + m)) % l.capacity)
              (index_ne l.capacity l.write_idx l.count (0 + m) v.write_in h (omega arith))
              (moved (0 + m)))
          (ap (λ (x : LogEntry). x ∷ [])
            (entry-store_new ((read_idx s + (0 + l.count)) % l.capacity) (
              moved (0 + l.count)
              ∙ ap (λ (k : ℕ). (read_idx l + k) % l.capacity) (add_zero l.count)
              ∙ index_last l.capacity l.write_idx l.count v.write_in v.count_in)))

  pub contents-store_full :
      (k : ℕ)
      → l.count ≡ suc k
      → l.count ≡ l.capacity
      → contents (store e l) ≡ drop 1 (contents l) ++ e ∷ []
  unfolding contents store
  contents-store_full k hk h =
      let s = store e l in
      let moved : (m : ℕ)
          → (read_idx s + m) % l.capacity ≡ ((read_idx l + 1) % l.capacity + m) % l.capacity =
        λ m. ap (λ (r : ℕ). (r + m) % l.capacity) (read_idx-store_full h) in
      let in_order : (m : ℕ) → m < k → entry_at s (0 + m) ≡ entry_at l (1 + m) = λ m lt.
        ap (entry_at s) (add_zero m)
        ∙ (let turned = index_full l.capacity l.write_idx l.count m v.write_in h (omega arith) in
            entry-store_old ((read_idx s + m) % l.capacity) ((read_idx l + (1 + m)) % l.capacity)
              turned.1 (moved m ∙ turned.0)) in
      let newest : entry_at s (0 + k) ≡ e =
        ap (entry_at s) (add_zero k)
        ∙ entry-store_new ((read_idx s + k) % l.capacity)
            (moved k ∙ index_full_last l.capacity l.write_idx l.count k v.write_in h hk) in
      ap (tabulate (entry_at s) 0) (count-store_full h ∙ hk)
      ∙ tabulate-suc (entry_at s) 0 k
      ∙ ap₂ ◌++◌
          (tabulate-eq (entry_at s) (entry_at l) 0 1 k in_order
            ∙ sym (drop-tabulate (entry_at l) k)
            ∙ ap (λ (n : ℕ). drop 1 (tabulate (entry_at l) 0 n)) (sym hk))
          (ap (λ (x : LogEntry). x ∷ []) newest)
