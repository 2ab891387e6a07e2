-- ===== src/Secure/Exchange.antt =====
-- A conversation over the channel of cmd/claw/securechannel.go, some frames of which get lost.
use clianywhere_daemon.Prelude.{
  ◌+◌, ◌^◌, ◌<◌, ◌≤◌, ◌≡◌, refl, ap, Bool, true, false, some, List, [], ◌∷◌, if◌then◌else◌, length,
  All, arith,
}
use clianywhere_daemon.Protocol.{Bytes, Message, secure_max_text_payload}
use clianywhere_daemon.Secure.{
  Crypto, SecureChannel, Result, ok, err, wrap_json, unwrap_json, wrap_binary, unwrap_binary, sent,
  received,
}
use clianywhere_daemon.Secure.Laws.{
  Laws, IsPaired, arrives-IsPaired, lost-IsPaired, wrap_json-ok, wrap_binary-ok,
  unwrap_json-envelope, unwrap_binary-secure_frame,
}

-- What is sent: a message by WrapJSON, or a frame by WrapBinary.
pub data Item : Type 0 where
  text : Message → Item
  binary : Bytes → Item

abbrev map_result {ℓ κ} : {A : Type ℓ} {B : Type κ} → (A → B) → Result A → Result B
map_result f (ok a) = ok (f a)
map_result f (err e) = err e

module _ {Aead : Type 0} (k : Crypto Aead) where
  pub receive_text : SecureChannel Aead → Result Message → SecureChannel Aead × Result Item
  receive_text b (err e) = (b, err e)
  receive_text b (ok outer) = let (b', r) = unwrap_json k b outer in (b', map_result text r)

  -- One item from `a` to `b`: both ends after it, and what `b` makes of it.
  pub transfer :
      SecureChannel Aead
      → SecureChannel Aead
      → Item
      → SecureChannel Aead × SecureChannel Aead × Result Item
  unfolding receive_text
  transfer a b (text m) =
      let (a', w) = wrap_json k a m in let (b', r) = receive_text b w in (a', b', r)
  transfer a b (binary f) =
      let (a', w) = wrap_binary k a f in
      let (b', r) = unwrap_binary k b w in (a', b', map_result binary r)

  -- The items in order; one marked `false` is lost on the way. The results are those of the items
  -- that arrive.
  pub exchange : SecureChannel Aead → SecureChannel Aead → List (Item × Bool) → List (Result Item)
  exchange a b [] = []
  exchange a b ((item, arrives) ∷ items) =
      let (a', b', r) = transfer a b item in
      let delivered = r ∷ exchange a' b' items in
      let lost = exchange a' b items in if arrives then delivered else lost

  -- The items that arrive.
  abbrev pub arriving : List (Item × Bool) → List (Result Item)
  arriving [] = []
  arriving ((item, true) ∷ items) = ok item ∷ arriving items
  arriving ((item, false) ∷ items) = arriving items

  -- encoding/json renders the message in at most SecureMaxTextPayload bytes and reads it back.
  abbrev pub IsItem : Item × Bool → Type 0
  IsItem (text m, arrives) =
      (plain : Bytes) × (k.marshal m ≡ some plain)
      × (length plain ≤ secure_max_text_payload)
      × (k.unmarshal plain ≡ some m)
  IsItem (binary f, arrives) = Unit

  module _ (laws : Laws k) where
    transfer-ok :
        (a b : SecureChannel Aead) (item : Item) (arrives : Bool)
        → IsPaired a b
        → a.send_seq + 1 < 2 ^ 64
        → IsItem (item, arrives)
        → transfer a b item ≡ (sent a, received b a.send_seq, ok item)
    unfolding transfer receive_text
    transfer-ok a b (text m) arrives p small i =
        rw (wrap_json-ok k laws a b p small m i.0 i.1 i.2)
          (rw (unwrap_json-envelope k laws a b p small m i.0 i.3))
    transfer-ok a b (binary f) arrives p small i =
        rw (wrap_binary-ok k laws a b p small f)
          (rw (unwrap_binary-secure_frame k laws a b p small f))

    -- If the ends are paired and fewer than 2^64 frames are sent in all, every message within the
    -- payload limit and every binary frame that arrives is unwrapped to what was wrapped, whichever
    -- of the others are lost.
    pub exchange-arriving :
        (a b : SecureChannel Aead) (items : List (Item × Bool))
        → IsPaired a b
        → a.send_seq + length items < 2 ^ 64
        → All IsItem items
        → exchange a b items ≡ arriving items
    unfolding exchange
    exchange-arriving a b [] p small h = refl
    exchange-arriving a b ((item, true) ∷ items) p small h =
        rw (transfer-ok a b item true p (omega arith) h.0) (
          ap (◌∷◌ (ok item)) (
            exchange-arriving (sent a) (received b a.send_seq) items
              (arrives-IsPaired k laws a b p (omega arith)) (omega arith) h.1))
    exchange-arriving a b ((item, false) ∷ items) p small h =
        rw (transfer-ok a b item false p (omega arith) h.0) (
          exchange-arriving (sent a) b items (lost-IsPaired k laws a b p (omega arith))
            (omega arith) h.1)
