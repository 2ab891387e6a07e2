-- ===== src/Batcher.antt =====
-- cmd/claw/output_batcher.go. This file packs one session's queued writes into output messages
-- (sendBatch); the children hold the buffers and the operations on them.
--
-- `marshal_len` is the length of what encoding/json.Marshal returns, `none` when it fails. A loop
-- takes fuel, and `none` means that the fuel ran out.
pub mod Packing
pub mod Buffers
mod Tests
use clianywhere_daemon.Prelude.{
  ℕ, zero, suc, ◌+◌, ◌-◌, ◌*◌, ◌/◌, Bool, true, false, ◌||◌, Option, none, some, List, [], ◌∷◌,
  ◌++◌, String, if◌then◌else◌, leb, ltb, length, take, drop,
}
use clianywhere_daemon.Protocol.{Bytes, Message, empty_message, secure_max_text_payload}

abbrev pub output_raw_cap : ℕ
output_raw_cap = 24 * 1024

abbrev pub output_chunk_margin : ℕ
output_chunk_margin = 2048

abbrev pub output_chunk_unit : ℕ
output_chunk_unit = 4096

-- 3573
abbrev pub output_marshal_free_floor : ℕ
output_marshal_free_floor = (secure_max_text_payload - output_chunk_margin - 512) / 6

-- int(SecureMaxTextPayload) - outputChunkMargin
abbrev pub output_budget : ℕ
output_budget = secure_max_text_payload - output_chunk_margin

pub record OutEntry : Type 0 where
  pub seq : ℕ
  pub bytes : Bytes

-- The message that `emit` and `outputFits` build.
abbrev pub output_message : String → Bytes → ℕ → ℕ → Message
output_message sid d n seq = record empty_message {
  kind = "output";
  session_id = sid;
  payload = d;
  seq = seq;
  outputs = n;
}

-- The local variables of sendBatch: the open message, and what was sent so far, oldest first.
pub record Open : Type 0 where
  pub payload : Bytes
  pub n : ℕ
  pub seq : ℕ
  pub sent : List Message

-- `none` is a marshalling error.
abbrev pub within : ℕ → Option ℕ → Bool
within budget none = false
within budget (some len) = leb len budget

-- `size > len(rem)` bounds the step by what is left.
abbrev pub first_size : Bytes → ℕ
first_size rem = if ltb (length rem) output_chunk_unit then length rem else output_chunk_unit

abbrev pub is_empty : Bytes → Bool
is_empty [] = true
is_empty (_ ∷ _) = false

-- n, or n + 1 for the first piece of a write
abbrev pub next_n : Bool → ℕ → ℕ
next_n first n = if first then n + 1 else n

-- The open message with a piece appended.
abbrev pub extend : Open → Bytes → ℕ → ℕ → Open
extend o piece n seq = record o { payload = o.payload ++ piece; n = n; seq = seq }

-- Enough for every round: each but one shortens what is left.
abbrev pub entry_fuel : Bytes → ℕ
entry_fuel rem = 2 * length rem + 1

abbrev pub nothing_open : Open
nothing_open = record { payload = []; n = 0; seq = 0; sent = [] }

-- `for size > 0 { if fits { break }; size /= 2 }`
pub shrink : (ℕ → Bool) → ℕ → ℕ → ℕ
shrink fits zero size = 0
shrink fits (suc f) zero = 0
shrink fits (suc f) (suc s) =
    let smaller = shrink fits f (suc s / 2) in if fits (suc s) then suc s else smaller

module _ (marshal_len : Message → Option ℕ) where
  pub output_fits : String → Bytes → ℕ → ℕ → ℕ → Bool
  output_fits sid d n seq budget = within budget (marshal_len (output_message sid d n seq))

  -- The test of both places that try a prefix `p` against the open message.
  pub accepts : String → Bytes → ℕ → ℕ → Bool
  accepts sid d n seq =
      leb (length d) output_marshal_free_floor || output_fits sid d n seq output_budget

  -- emit
  pub emit : String → Open → Open
  emit sid o = if is_empty o.payload then o else record o {
    payload = [];
    n = 0;
    sent = o.sent ++ output_message sid o.payload o.n o.seq ∷ [];
  }

  -- The largest size found, from the step down.
  pub fit_size : String → OutEntry → Bytes → ℕ → Open → ℕ
  fit_size sid e rem n o =
      shrink (λ size. accepts sid (o.payload ++ take size rem) n e.seq) (first_size rem)
        (first_size rem)

  -- The body of `for len(rem) > 0` after the fast path, up to the next round: the bytes left,
  -- whether the next piece is the first, and the variables.
  pub split_step : String → OutEntry → Bytes → Bool → Open → ℕ → Bytes × Bool × Open
  split_step sid e rem first o zero = (rem, first, emit sid o)
  split_step sid e rem first o (suc s) =
      let o' = extend o (take (suc s) rem) (next_n first o.n) e.seq in
      let rest = drop (suc s) rem in (rest, false, if is_empty rest then o' else emit sid o')

  -- `for len(rem) > 0`
  pub pack_entry : ℕ → String → OutEntry → Bytes → Bool → Open → Option Open
  pack_entry fuel sid e [] first o = some o
  pack_entry zero sid e (b ∷ rem) first o = none
  pack_entry (suc f) sid e (b ∷ rem) first o =
      let n = next_n first o.n in
      let (rest, first', o') = split_step sid e (b ∷ rem) first o (fit_size sid e (b ∷ rem) n o) in
      let again = pack_entry f sid e rest first' o' in
      if accepts sid (o.payload ++ b ∷ rem) n e.seq
      then some (extend o (b ∷ rem) n e.seq)
      else again

  pub pack_entries : String → List OutEntry → Open → Option Open
  pack_entries sid [] o = some o
  pack_entries sid (e ∷ es) o = elim (pack_entry (entry_fuel e.bytes) sid e e.bytes true o) [
    | none ↦ none
    | some o' ↦ pack_entries sid es o'
  ]

  -- sendBatch: the messages in the order in which they are sent.
  pub send_batch? : String → List OutEntry → Option (List Message)
  send_batch? sid es = elim (pack_entries sid es nothing_open) [
    | none ↦ none
    | some o ↦ some (emit sid o).sent
  ]

  -- `Packing.Results.send_batch_lem` shows that the fuel does not run out.
  pub send_batch : String → List OutEntry → List Message
  send_batch sid es = elim (send_batch? sid es) [ none ↦ [] | some ms ↦ ms ]
