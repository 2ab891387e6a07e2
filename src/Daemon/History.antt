-- ===== src/Daemon/History.antt =====
-- cmd/claw/daemon.go: the chunks in which a session's history is sent.
use clianywhere_daemon.Prelude.{
  ℕ, zero, suc, ◌+◌, ◌-◌, ◌<◌, ◌≤◌, ◌≡◌, Bool, true, false, ◌⊎◌, List, [], ◌∷◌, ◌++◌, if◌then◌else◌,
  length, leb, ltb, take, drop,
}
use clianywhere_daemon.Protocol.{Bytes, empty_message, secure_max_text_payload}
use clianywhere_daemon.Secure.{Crypto}
use clianywhere_daemon.Batcher.{within}
use clianywhere_daemon.Daemon.Outgoing.{marshal_length}

abbrev pub history_chunk_unit : ℕ
history_chunk_unit = 4096

abbrev pub history_budget : ℕ
history_budget = secure_max_text_payload - 2048

-- A unit further, or the end of the data
abbrev pub next_end : Bytes → ℕ → ℕ
next_end bytes end =
    if ltb (length bytes) (end + history_chunk_unit) then length bytes else end + history_chunk_unit

-- `for end < len(data)`: the end of the chunk, grown by whole units while it fits.
unfoldable pub grow : (Bytes → Bool) → ℕ → Bytes → ℕ → ℕ
grow fits zero bytes end = end
grow fits (suc f) bytes end =
    let next = next_end bytes end in
    let more = grow fits f bytes next in
    if leb (length bytes) end then end else if fits (take next bytes) then more else end

-- `for start := 0; start < len(data);`: `bytes` is what is left.
unfoldable pub chunks_of : (Bytes → Bool) → ℕ → Bytes → List Bytes
chunks_of fits zero bytes = []
chunks_of fits (suc f) [] = []
chunks_of fits (suc f) (b ∷ bytes) =
    let end = grow fits (suc (length bytes)) (b ∷ bytes) (next_end (b ∷ bytes) 0) in
    take end (b ∷ bytes) ∷ chunks_of fits f (drop end (b ∷ bytes))

module _ {Aead : Type 0} (k : Crypto Aead) where
  -- historyChunkFits
  unfoldable pub history_chunk_fits : Bytes → Bool
  history_chunk_fits raw = within history_budget (
      marshal_length k (record empty_message {
        kind = "history_chunk";
        session_id = "00000000000000000000000000000000";
        payload = raw;
        total_chunks = 1;
      }))

  -- historyPlainChunks
  unfoldable pub history_plain_chunks : Bytes → List Bytes
  unfolding chunks_of
  history_plain_chunks bytes = chunks_of history_chunk_fits (length bytes) bytes

module _ (fits : Bytes → Bool) where
  -- The loop ends at `r` because the data ends there, or because the next unit does not fit.
  record Grown (bytes : Bytes) (end r : ℕ) : Type 0 where
    from : end ≤ r
    upto : r ≤ length bytes
    fitting : (r ≡ end) ⊎ (fits (take r bytes) ≡ true)
    largest : (r ≡ length bytes) ⊎ (fits (take (next_end bytes r) bytes) ≡ false)

  -- The chunks are the data cut from the front, each not empty and at most a unit or within the
  -- budget; one unit more would not have fitted, unless the data ends with the chunk.
  abbrev pub IsChunked : List Bytes → Bytes → Type 0
  IsChunked [] bytes = bytes ≡ []
  IsChunked (c ∷ cs) bytes =
      (rest : Bytes) × (bytes ≡ c ++ rest)
      × (0 < length c)
      × ((length c ≤ history_chunk_unit) ⊎ (fits c ≡ true))
      × ((rest ≡ []) ⊎ (fits (take (next_end bytes (length c)) bytes) ≡ false))
      × IsChunked cs rest
