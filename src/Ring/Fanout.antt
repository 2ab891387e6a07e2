-- ===== src/Ring/Fanout.antt =====
-- The channels of the subscribers of cmd/claw/ring_logger.go.
use clianywhere_daemon.Prelude.{
  nat_key, nat_beq, beq_ne, Option, some, nat_beq_iff, ◌≢◌, lt→ltb, subst, ℕ, suc, ◌<◌, ◌≤◌, ◌≡◌,
  refl, sym, ap, ap₂, ◌∙◌, true, false, List, [], ◌∷◌, ◌++◌, length, drop, arith, All,
  length-append, length-drop,
}
use native.Mathlib.Decide.{dec_lt}
use clianywhere_daemon.Ring.{
  unsubscribe, remove, find, store, RingLogger, LogEntry, Channel, channel_size, offer, offer_all,
  append, subscribe,
}

-- The send statement of a Go channel with room never blocks.
unfoldable pub IsBounded : Channel → Type 0
IsBounded ch = length ch.buffer ≤ channel_size

-- What one entry does to one channel: it comes last, and at most the oldest entry is lost.
pub record Offered (e : LogEntry) (ch ch' : Channel) : Type 0 where
  pub same : ch'.id ≡ ch.id
  pub lost : ℕ
  pub at_most_one : lost ≤ 1
  pub only_when_full : 0 < lost → length ch.buffer ≡ channel_size
  pub buffered : ch'.buffer ≡ drop lost ch.buffer ++ e ∷ []
  pub bounded : IsBounded ch'

-- The channels before and after a step, one by one.
pub data Each (R : Channel → Channel → Type 0) : List Channel → List Channel → Type 0 where
  none_left : Each R [] []
  both : (a b : Channel) (xs ys : List Channel) → R a b → Each R xs ys → Each R (a ∷ xs) (b ∷ ys)

module _ (e : LogEntry) (ch : Channel) where
  last_one : (xs : List LogEntry) → length (xs ++ e ∷ []) ≡ suc (length xs)
  last_one xs = length-append xs (e ∷ []) ∙ omega arith

  offer_room :
      length ch.buffer < channel_size → offer e ch ≡ record ch { buffer = ch.buffer ++ e ∷ [] }
  unfolding offer
  offer_room h = rw (lt→ltb (length ch.buffer) channel_size h) refl

  offer_full :
      length ch.buffer ≡ channel_size
      → offer e ch ≡ record ch { buffer = drop 1 ch.buffer ++ e ∷ [] }
  unfolding offer
  offer_full h =
      let short : length (drop 1 ch.buffer) < channel_size =
        omega (arith, length-drop 1 ch.buffer) in
      rw h (rw (lt→ltb (length (drop 1 ch.buffer)) channel_size short) refl)

  offer-Offered : IsBounded ch → Offered e ch (offer e ch)
  unfolding IsBounded
  offer-Offered b = elim (dec_lt (length ch.buffer) channel_size) [
    | yes h ↦ subst (Offered e ch) (sym (offer_room h)) record {
      same = refl;
      lost = 0;
      at_most_one = omega arith;
      only_when_full = λ lt. absurd (omega arith);
      buffered = refl;
      bounded = omega (arith, last_one ch.buffer);
    }
    | no h ↦
        let full : length ch.buffer ≡ channel_size = omega arith in
        subst (Offered e ch) (sym (offer_full full)) record {
          same = refl;
          lost = 1;
          at_most_one = omega arith;
          only_when_full = λ lt. full;
          buffered = refl;
          bounded = omega (arith, last_one (drop 1 ch.buffer), length-drop 1 ch.buffer);
        }
  ]

offer_all-Each :
    (e : LogEntry) (chs : List Channel) → All IsBounded chs → Each (Offered e) chs (offer_all e chs)
unfolding offer_all
offer_all-Each e [] h = none_left
offer_all-Each e (ch ∷ chs) h =
    both ch (offer e ch) chs (offer_all e chs) (offer-Offered e ch h.0) (offer_all-Each e chs h.1)

-- If every channel of `l` holds at most 256 entries, then `append` gives every channel, in place, the
-- new entry as its last one, and takes from it at most one entry, the oldest, and only from a channel
-- that was full; every channel holds at most 256 entries again.
pub append-Each :
    (e : LogEntry) (l : RingLogger)
    → All IsBounded l.subscribers
    → Each (Offered e) l.subscribers (RingLogger.subscribers (append e l))
unfolding append store
append-Each e l h = offer_all-Each e l.subscribers h

module _ (id : ℕ) (new : Channel) (own : new.id ≡ id) where
  remove-append :
      (chs : List Channel) → All (λ ch. ch.id ≢ id) chs → remove id (chs ++ new ∷ []) ≡ chs
  unfolding remove
  remove-append [] h = rw ((nat_beq_iff new.id id).1 own) refl
  remove-append (ch ∷ chs) h =
      let other : nat_beq ch.id id ≡ false = beq_ne ch.id id h.0 in
      rw other (ap (◌∷◌ ch) (remove-append chs h.1))

  find-append :
      (chs : List Channel)
      → All (λ ch. ch.id ≢ id) chs
      → find id (chs ++ new ∷ []) ≡ some (record new { closed = true })
  unfolding find
  find-append [] h = rw ((nat_beq_iff new.id id).1 own) refl
  find-append (ch ∷ chs) h =
      let other : nat_beq ch.id id ≡ false = beq_ne ch.id id h.0 in rw other (find-append chs h.1)

-- If no channel of `l` has the identity `id`, then Unsubscribe of the channel that Subscribe made
-- under it returns the logger to what it was, and closes that channel, still empty, and no other.
pub unsubscribe-subscribe :
    (id : ℕ) (l : RingLogger)
    → All (λ ch. ch.id ≢ id) l.subscribers
    → unsubscribe id (subscribe id l).0 ≡ (l, some (record (subscribe id l).1 { closed = true }))
unfolding subscribe unsubscribe
unsubscribe-subscribe id l h =
    let ch = (subscribe id l).1 in
    ap₂ (λ (a : RingLogger) (b : Option Channel). (a, b))
      (ap (λ (s : List Channel). record l { subscribers = s })
        (remove-append id ch refl l.subscribers h))
      (find-append id ch refl l.subscribers h)
