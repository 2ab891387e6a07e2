-- ===== src/Files/Sizes.antt =====
-- cmd/claw/filetransfer.go: the chunk size and the number of chunks that startSendFromStaged picks,
-- and the size of the frames that come of them.
use clianywhere_daemon.Prelude.{
  nat_beq_iff, ap, ℕ, ◌+◌, ◌-◌, ◌*◌, ◌/◌, ◌≤◌, ◌<◌, arith, ◌≡◌, sym, ◌∙◌, Bool, some, List, [], ◌∷◌,
  length, All, Bool-cases, All-map, nat_beq, inl, inr, subst,
}
use clianywhere_daemon.Protocol.{Bytes}
use clianywhere_daemon.Prelude.Blocks.{le-ceil-mul, ceil-le}
use clianywhere_daemon.Wire.{put_uint32}
use clianywhere_daemon.Secure.{Crypto}
use clianywhere_daemon.Secure.Laws.{Laws}
use clianywhere_daemon.Daemon.{Daemon}
use clianywhere_daemon.Daemon.Framing.{
  secure_overhead, secure_overhead-le, length-wrap_outgoing_binary,
}
use clianywhere_daemon.Daemon.Outgoing.{wrap_outgoing_binary, frame_limit_for_channel}
use clianywhere_daemon.Files.{
  true, FileSendTask, file_chunk_limit_for, chunk_size_for, total_chunks_for,
}
use clianywhere_daemon.Files.Sender.{Event, chunk_frame, start, run}
use clianywhere_daemon.Files.Sender.Delivery.{data_frames, numbered, Delivers, IsPayload}
use clianywhere_daemon.Files.Sender.Arrival.{run-Keeps}
use clianywhere_daemon.Files.Sender.Assembly.{start-Delivers}

length-chunk_frame : (id idx : ℕ) (p : Bytes) → length (chunk_frame id idx p) ≡ 9 + length p
unfolding chunk_frame put_uint32
length-chunk_frame id idx p = omega arith

numbered-Fits :
    (size limit extra id idx : ℕ) (ps : List Bytes)
    → 9 + size + extra ≤ limit
    → All (IsPayload size) ps
    → All (λ (f : Bytes). length f + extra ≤ limit) (numbered id idx ps)
unfolding numbered
numbered-Fits size limit extra id idx [] h fits = tt
numbered-Fits size limit extra id idx (p ∷ ps) h fits = (
  omega (arith, length-chunk_frame id idx p, fits.0.1),
  numbered-Fits size limit extra id (idx + 1) ps h fits.1,
)

module _ {Aead Server : Type 0} (configured : ℕ) (d : Daemon Aead Server) where
  chunk_size_for_bounds :
      (0 < chunk_size_for configured d)
      × (9 + chunk_size_for configured d + secure_overhead d ≤ file_chunk_limit_for d)
      × (file_chunk_limit_for d ≤ frame_limit_for_channel d)
  unfolding chunk_size_for file_chunk_limit_for frame_limit_for_channel
  chunk_size_for_bounds = grind (arith, secure_overhead-le d)

-- totalChunks is the least positive number of chunks that hold the file.
pub total_chunks_for_least :
    (file_size chunk_size : ℕ)
    → 0 < chunk_size
    → (file_size ≤ total_chunks_for file_size chunk_size * chunk_size)
      × (0 < total_chunks_for file_size chunk_size)
      × ((n : ℕ) → 0 < n → file_size ≤ n * chunk_size → total_chunks_for file_size chunk_size ≤ n)
unfolding total_chunks_for
total_chunks_for_least file_size chunk_size h =
    elim (Bool-cases (nat_beq ((file_size + chunk_size - 1) / chunk_size) 0)) [
      | inl e ↦ rw e (
        omega (arith, le-ceil-mul file_size chunk_size h, no_blocks e),
        omega arith,
        λ n positive fits. positive,
      )
      | inr e ↦ rw e (
        le-ceil-mul file_size chunk_size h,
        ground arith,
        λ n positive fits. ceil-le file_size chunk_size n h fits,
      )
    ]
  where
    no_blocks :
        nat_beq ((file_size + chunk_size - 1) / chunk_size) 0 ≡ true
        → (file_size + chunk_size - 1) / chunk_size * chunk_size ≡ 0
    no_blocks e = ap (λ (q : ℕ). q * chunk_size) ((nat_beq_iff _ 0).0 e) ∙ omega arith

module _ {Aead Server : Type 0} (k : Crypto Aead) (configured : ℕ) (d : Daemon Aead Server)
    (use_window : Bool) (checksum : Bytes → Bytes) (es : List Event) (t : FileSendTask)
    (content : Bytes) where
  abbrev size : ℕ
  size = chunk_size_for configured d

  -- With the chunk size picked for the daemon's channel, whatever the configuration, each frame
  -- with file data that a transfer sends fits the channel after encryption, as long as the channel
  -- and its encryption stay as they were when the size was picked.
  pub run-Fits :
      Laws k
      → All
          (λ (f : Bytes). length (wrap_outgoing_binary k f d).1 ≤ frame_limit_for_channel d)
          (data_frames (run checksum size use_window es (start (some content) t)).1)
  run-Fits laws =
      All-map (λ (f : Bytes). length f + secure_overhead d ≤ frame_limit_for_channel d) _
        (λ f h. omega (arith, length-wrap_outgoing_binary k laws d f, h))
        (data_frames (run checksum size use_window es (start (some content) t)).1)
        (subst (All (λ (f : Bytes). length f + secure_overhead d ≤ frame_limit_for_channel d))
          (sym e.framed) fits)
    where
      e :
          Delivers size checksum t.id t.total_chunks content
            (run checksum size use_window es (start (some content) t)).0
            (run checksum size use_window es (start (some content) t)).1
      e =
          run-Keeps size checksum t.id t.total_chunks content use_window es (start (some content) t)
            (chunk_size_for_bounds configured d).0
            (start-Delivers use_window size checksum es t content)

      fits :
          All
            (λ (f : Bytes). length f + secure_overhead d ≤ frame_limit_for_channel d)
            (numbered t.id 0 e.payloads)
      fits =
          numbered-Fits size (frame_limit_for_channel d) (secure_overhead d) t.id 0 e.payloads
            (omega (arith, chunk_size_for_bounds configured d)) e.fits
