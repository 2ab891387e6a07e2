-- ===== src/Ring/History.antt =====
-- Any number of `append` calls: the ring of cmd/claw/ring_logger.go against the whole history.
use native.Mathlib.Decide.{dec_lt}
use clianywhere_daemon.Prelude.{
  append_assoc, append-nil, subst, ℕ, zero, suc, ◌-◌, ◌<◌, ◌≤◌, min, ◌≡◌, refl, sym, ap, ◌∙◌, List,
  [], ◌∷◌, ◌++◌, length, drop, take, arith, if◌then◌else◌, nat_beq, length-replicate, length-append,
}
use clianywhere_daemon.Ring.Table.{tabulate-zero}
use clianywhere_daemon.Ring.{
  entry_at, RingLogger, LogEntry, zero_entry, new_ring_logger, store, append, get_recent,
}
use clianywhere_daemon.Ring.Contents.{
  IsRing, contents, store-IsRing, contents-store_room, contents-store_full, count-store_room,
  count-store_full, get_recent_lem,
}

-- The last `n` elements of a list.
unfoldable pub last_n : ℕ → List LogEntry → List LogEntry
last_n n xs = drop (length xs - n) xs

-- The entries appended one after the other.
pub append_all : List LogEntry → RingLogger → RingLogger
append_all [] l = l
append_all (e ∷ es) l = append_all es (append e l)

drop-append : (n : ℕ) (xs ys : List LogEntry) → n ≤ length xs → drop n (xs ++ ys) ≡ drop n xs ++ ys
drop-append zero xs ys h = refl
drop-append (suc n) [] ys h = absurd (omega arith)
drop-append (suc n) (x ∷ xs) ys h = drop-append n xs ys (omega arith)

drop-drop : (n : ℕ) (xs : List LogEntry) → drop 1 (drop n xs) ≡ drop (suc n) xs
drop-drop zero xs = refl
drop-drop (suc n) [] = refl
drop-drop (suc n) (x ∷ xs) = drop-drop n xs

drop-nil : (n : ℕ) → ◌≡◌ {A = List LogEntry} [] (drop n [])
drop-nil zero = refl
drop-nil (suc n) = refl

-- `l` holds the last entries of the history `es`.
pub record IsLogOf (es : List LogEntry) (l : RingLogger) : Type 0 where
  pub ring : IsRing l
  pub counted : l.count ≡ min (length es) l.capacity
  pub kept : contents l ≡ last_n l.capacity es

module _ (es : List LogEntry) (e : LogEntry) (l : RingLogger) (v : IsLogOf es l) where
  length-snoc : length (es ++ e ∷ []) ≡ suc (length es)
  length-snoc = length-append es (e ∷ []) ∙ omega arith

  kept_room : l.count < l.capacity → contents (store e l) ≡ last_n l.capacity (es ++ e ∷ [])
  unfolding last_n
  kept_room h =
      let r = v.ring in
      let z : length es - l.capacity ≡ 0 = omega (arith, v.counted) in
      let z' : 0 ≡ length (es ++ e ∷ []) - l.capacity = omega (arith, v.counted, length-snoc) in
      contents-store_room e l v.ring h
      ∙ ap (λ (xs : List LogEntry). xs ++ e ∷ []) (v.kept ∙ ap (λ (n : ℕ). drop n es) z)
      ∙ ap (λ (n : ℕ). drop n (es ++ e ∷ [])) z'

  kept_full : l.count ≡ l.capacity → contents (store e l) ≡ last_n l.capacity (es ++ e ∷ [])
  unfolding last_n
  kept_full h =
      let r = v.ring in
      let n = length es - l.capacity in
      let step : suc n ≡ length (es ++ e ∷ []) - l.capacity =
        omega (arith, v.counted, length-snoc) in
      contents-store_full e l v.ring (l.count - 1) (omega (arith, r.positive)) h
      ∙ ap (λ (xs : List LogEntry). xs ++ e ∷ []) (ap (drop 1) v.kept ∙ drop-drop n es)
      ∙ sym (drop-append (suc n) es (e ∷ []) (omega (arith, v.counted, r.positive)))
      ∙ ap (λ (k : ℕ). drop k (es ++ e ∷ [])) step

  store-IsLogOf : IsLogOf (es ++ e ∷ []) (store e l)
  unfolding store
  store-IsLogOf =
      let r = v.ring in
      elim (dec_lt l.count l.capacity) [
        | yes h ↦ record {
          ring = store-IsRing e l v.ring;
          counted = count-store_room e l v.ring h ∙ omega (arith, v.counted, length-snoc);
          kept = kept_room h;
        }
        | no h ↦
            let full : l.count ≡ l.capacity = omega (arith, r.count_in) in
            record {
              ring = store-IsRing e l v.ring;
              counted = count-store_full e l v.ring full ∙ omega (arith, v.counted, length-snoc);
              kept = kept_full full;
            }
      ]

  append-IsLogOf : IsLogOf (es ++ e ∷ []) (append e l)
  unfolding append contents
  append-IsLogOf =
      let w = store-IsLogOf in
      let r = w.ring in
      record {
        ring = record {
          room = r.room;
          positive = r.positive;
          write_in = r.write_in;
          count_in = r.count_in;
        };
        counted = w.counted;
        kept = w.kept;
      }

append_all-IsLogOf :
    (es fs : List LogEntry) (l : RingLogger) → IsLogOf es l → IsLogOf (es ++ fs) (append_all fs l)
unfolding append_all
append_all-IsLogOf es [] l v = subst (λ (xs : List LogEntry). IsLogOf xs l) (sym (append-nil es)) v
append_all-IsLogOf es (f ∷ fs) l v =
    subst (λ (xs : List LogEntry). IsLogOf xs (append_all fs (append f l)))
      (append_assoc es (f ∷ []) fs)
      (append_all-IsLogOf (es ++ f ∷ []) fs (append f l) (append-IsLogOf es f l v))

-- The capacity that NewRingLogger chooses.
unfoldable pub chosen : ℕ → ℕ
chosen c = if nat_beq c 0 then 1000 else c

new_ring_logger-IsLogOf : (c : ℕ) → IsLogOf [] (new_ring_logger c)
unfolding new_ring_logger last_n contents
new_ring_logger-IsLogOf c =
    let cap : ℕ = if nat_beq c 0 then 1000 else c in
    let positive : 0 < cap = ground arith in
    record {
      ring = record {
        room = length-replicate cap zero_entry;
        positive = positive;
        write_in = positive;
        count_in = omega arith;
      };
      counted = omega arith;
      kept = tabulate-zero (entry_at (new_ring_logger c)) 0 ∙ drop-nil (0 - cap);
    }

append_all-capacity :
    (es : List LogEntry) (l : RingLogger) → RingLogger.capacity (append_all es l) ≡ l.capacity
unfolding append_all append store
append_all-capacity [] l = refl
append_all-capacity (e ∷ es) l = append_all-capacity es (append e l)

-- After the calls of `append` for the entries `es` on the logger of NewRingLogger(c), GetRecent(n)
-- returns the first `n`, so the oldest, of the last `chosen c` entries of `es`, in their order.
pub get_recent-append_all :
    (n c : ℕ) (es : List LogEntry)
    → get_recent n (append_all es (new_ring_logger c)) ≡ take n (last_n (chosen c) es)
unfolding chosen new_ring_logger
get_recent-append_all n c es =
    let l = new_ring_logger c in
    let v = append_all-IsLogOf [] es l (new_ring_logger-IsLogOf c) in
    get_recent_lem n (append_all es l)
    ∙ ap (take n) (v.kept ∙ ap (λ (k : ℕ). last_n k es) (append_all-capacity es l))
