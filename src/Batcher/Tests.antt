-- ===== src/Batcher/Tests.antt =====
-- Runs of the batcher, and its theorems at concrete inputs.
use clianywhere_daemon.Prelude.{
  ℕ, ◌+◌, ◌*◌, true, Option, some, List, [], ◌∷◌, map, ◌≡◌, refl, All, length, replicate, arith,
}
use clianywhere_daemon.Prelude.Assoc.{lookup}
use clianywhere_daemon.Protocol.{Message}
use clianywhere_daemon.Batcher.{
  OutEntry, send_batch, send_batch?, pack_entries, pack_entry, split_step, fit_size, shrink,
  accepts, output_fits, emit,
}
use clianywhere_daemon.Batcher.Packing.{payloads, Covers}
use clianywhere_daemon.Batcher.Packing.Segment.{Follows, entry_bytes}
use clianywhere_daemon.Batcher.Packing.Results.{
  send_batch_lem, send_batch-FitsBudget, FitsBudget, JsonBound,
}
use clianywhere_daemon.Batcher.Buffers.{Bufs, seal_at, tick, flush_all, millisecond}
use clianywhere_daemon.Batcher.Buffers.Results.{Call, adds, seals, run, run-IsFifo}
use clianywhere_daemon.Batcher.Buffers.Adding.{IsFifo}
use clianywhere_daemon.Batcher.Buffers.Stream.{IsBufs}
use clianywhere_daemon.Batcher.Buffers.Sealing.{
  batches, IsSwept, seal_at_separates, flushed_in_time, SentUpto, LeftAfter, Young,
}

-- Every byte is escaped.
abbrev dense_json : Message → Option ℕ
dense_json m = some (6 * length m.payload + 400)

abbrev writes : List OutEntry
writes =
    record { seq = 7; bytes = replicate 9000 27 } ∷ record { seq = 8; bytes = 104 ∷ 105 ∷ [] } ∷ []

-- A write that does not fit is split, and its tail counts no write.
abbrev summary : Message → ℕ × ℕ × ℕ
summary m = (length m.payload, m.outputs, m.seq)

split_pieces :
    map summary (send_batch dense_json "s" writes)
    ≡ (2048, 1, 7) ∷ (2048, 0, 7) ∷ (2048, 0, 7) ∷ (2858, 1, 8) ∷ []
unfolding send_batch send_batch? pack_entries pack_entry split_step fit_size shrink accepts
    output_fits emit
split_pieces = refl

writes-Follows : Follows 6 writes
writes-Follows = (refl, refl, (refl, refl, tt))

send_batch_lem_example :
    (send_batch? dense_json "s" writes ≡ some (send_batch dense_json "s" writes))
    × (payloads (send_batch dense_json "s" writes) ≡ entry_bytes writes)
    × Covers 6 (send_batch dense_json "s" writes) 8
send_batch_lem_example = send_batch_lem dense_json "s" 6 writes writes-Follows

dense_json-JsonBound : JsonBound dense_json "s"
dense_json-JsonBound d n seq hn hs = (6 * length d + 400, refl, omega arith)

send_batch-FitsBudget_example : All (FitsBudget dense_json "s") (send_batch dense_json "s" writes)
send_batch-FitsBudget_example =
    send_batch-FitsBudget dense_json "s" 6 writes dense_json-JsonBound writes-Follows (omega arith)

abbrev history : List Call
history =
    adds "s" (1 ∷ []) 1 0
    ∷ adds "t" (9 ∷ []) 1 5
    ∷ adds "s" (2 ∷ []) 2 10
    ∷ seals 1
    ∷ adds "s" (3 ∷ []) 4 20
    ∷ []

run-IsFifo_example : IsFifo dense_json "s" (1 ∷ 2 ∷ 3 ∷ []) [] (run dense_json [] history)
run-IsFifo_example = run-IsFifo dense_json "s" history [] (omega arith) tt

abbrev two_writes : Bufs
two_writes =
    (
      "s",
      record {
        entries = record { seq = 3; bytes = 97 ∷ [] } ∷ record { seq = 4; bytes = 98 ∷ [] } ∷ [];
        first_add = 0;
        last_seq = 4;
        raw_len = 2;
      },
    )
    ∷ []

two_writes-IsBufs : IsBufs two_writes
two_writes-IsBufs = (
  record {
    start = 2;
    segment = (refl, refl, (refl, refl, tt));
    latest = refl;
    raw = refl;
    bound = omega arith;
    filled = refl;
  },
  unfold lookup in refl,
  tt,
)

seal_at_separates_example :
    All (SentUpto dense_json 3) (seal_at dense_json 3 two_writes).1
    × All (LeftAfter 3) (seal_at dense_json 3 two_writes).0
seal_at_separates_example = seal_at_separates dense_json 3 two_writes two_writes-IsBufs

flushed_in_time_example :
    All
      (Young dense_json true (11 * millisecond))
      (tick dense_json true (11 * millisecond) two_writes).0
    × IsSwept dense_json true
        (11 * millisecond)
        two_writes
        (tick dense_json true (11 * millisecond) two_writes).0
        (tick dense_json true (11 * millisecond) two_writes).1
    × (flush_all dense_json two_writes ≡ ([], batches dense_json two_writes))
flushed_in_time_example = flushed_in_time dense_json true (11 * millisecond) two_writes
