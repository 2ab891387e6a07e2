-- ===== src/Files/Sender/Assembly.antt =====
-- cmd/claw/filetransfer.go: the file that a receiver puts together from the frames of sendFile.
use clianywhere_daemon.Prelude.{
  subst, ℕ, ◌+◌, ◌*◌, ◌^◌, ◌≤◌, ◌<◌, Bool, Option, none, some, List, [], ◌∷◌, ◌++◌, ◌≡◌, refl, sym,
  ap, ◌∙◌, ◌⊎◌, inl, inr, arith, length, take, drop, concat, nat_beq, ◌&&◌, if◌then◌else◌,
  append-nil, length-append,
}
use clianywhere_daemon.Protocol.{Bytes, opcode_file_transfer}
use clianywhere_daemon.Wire.{get_be, put_uint32, get_be-put_uint32}
use clianywhere_daemon.Files.{FileSendTask}
use clianywhere_daemon.Files.Sender.{Event, Run, chunk_frame, start, run}
use clianywhere_daemon.Files.Sender.Delivery.{data_frames, controls, numbered, Delivers, EndsWith}
use clianywhere_daemon.Files.Sender.Arrival.{run-Keeps}

-- What a receiver makes of the frames of one file, in order: none unless each has the id and the
-- next index.
unfoldable pub payload_of : ℕ → ℕ → Bytes → Option Bytes
payload_of id idx [] = none
payload_of id idx (op ∷ b) =
    if nat_beq op opcode_file_transfer
      && nat_beq (get_be (take 4 b)) id
      && nat_beq (get_be (take 4 (drop 4 b))) idx
    then some (drop 8 b)
    else none

unfoldable pub assemble : ℕ → ℕ → List Bytes → Option Bytes
assemble id idx [] = some []
assemble id idx (f ∷ fs) = elim (payload_of id idx f) [
  | none ↦ none
  | some p ↦ elim (assemble id (idx + 1) fs) [ none ↦ none | some rest ↦ some (p ++ rest) ]
]

payload_of-chunk_frame :
    (id idx : ℕ) (p : Bytes)
    → id < 2 ^ 32
    → idx < 2 ^ 32
    → payload_of id idx (chunk_frame id idx p) ≡ some p
unfolding payload_of chunk_frame put_uint32
payload_of-chunk_frame id idx p h k =
    ground (arith, get_be-put_uint32 id h, get_be-put_uint32 idx k)

assemble-numbered :
    (id idx : ℕ) (ps : List Bytes)
    → id < 2 ^ 32
    → idx + length ps ≤ 2 ^ 32
    → assemble id idx (numbered id idx ps) ≡ some (concat ps)
unfolding assemble numbered
assemble-numbered id idx [] h k = refl
assemble-numbered id idx (p ∷ ps) h k =
    rw (payload_of-chunk_frame id idx p h (omega arith), assemble)
      (rw (assemble-numbered id (idx + 1) ps h (omega arith)) refl)

length-zero : (b : Bytes) → length b ≡ 0 → b ≡ []
length-zero [] e = refl
length-zero (x ∷ b) e = absurd (omega (arith, e))

mul_le : (a b n : ℕ) → a ≤ b → a * n ≤ b * n
mul_le a b n h = grind arith

module _ (use_window : Bool) (chunk_size : ℕ) (checksum : Bytes → Bytes) (es : List Event)
    (t : FileSendTask) (content : Bytes) where
  -- Where the events `es` leave the transfer of `content`, and what it has sent by then.
  abbrev after : Run
  after = run checksum chunk_size use_window es (start (some content) t)

  pub start-Delivers :
      Delivers chunk_size checksum t.id t.total_chunks content
        (start (some content) t).0
        (start (some content) t).1
  unfolding start numbered
  start-Delivers = record {
    payloads = [];
    tail = content;
    same_id = refl;
    same_total = refl;
    framed = refl;
    counted = refl;
    bounded = omega arith;
    whole = refl;
    unread = λ q. refl;
    hashes = λ q. refl;
    fits = tt;
    full = inr (omega arith);
    unended = λ q. refl;
    ended = inl refl;
  }

  -- Whatever passes, acknowledgements and cancellations make up the life of a transfer, the frames
  -- sent assemble to a prefix of the file; and if the end message is sent, and the file is no
  -- longer than the chunks announced can hold, they assemble to the whole file and the message has
  -- the file's id and checksum.
  pub assemble-run :
      0 < chunk_size
      → t.id < 2 ^ 32
      → t.total_chunks ≤ 2 ^ 32
      → length content ≤ t.total_chunks * chunk_size
      → (sent tail : Bytes) × (assemble t.id 0 (data_frames after.1) ≡ some sent)
        × (sent ++ tail ≡ content)
        × ((controls after.1 ≡ [])
            ⊎ ((sent ≡ content)
                × EndsWith chunk_size checksum t.id t.total_chunks content after.1 content))
  assemble-run h small few room = (concat d.payloads, d.tail, assembled, d.whole, outcome d.ended)
    where
      d : Delivers chunk_size checksum t.id t.total_chunks content after.0 after.1
      d =
          run-Keeps chunk_size checksum t.id t.total_chunks content use_window es
            (start (some content) t) h start-Delivers

      assembled : assemble t.id 0 (data_frames after.1) ≡ some (concat d.payloads)
      assembled =
          ap (assemble t.id 0) d.framed
          ∙ assemble-numbered t.id 0 d.payloads small (omega (arith, d.counted, d.bounded))

      lengths : length (concat d.payloads) + length d.tail ≡ length content
      lengths = sym (length-append (concat d.payloads) d.tail) ∙ ap length d.whole

      no_tail :
          (d.tail ≡ []) ⊎ (length (concat d.payloads) ≡ after.0.chunk_idx * chunk_size)
          → (d.tail ≡ []) ⊎ (t.total_chunks ≤ after.0.chunk_idx)
          → d.tail ≡ []
      no_tail (inl e) last = e
      no_tail (inr full) (inl e) = e
      no_tail (inr full) (inr last) =
          length-zero d.tail
            (omega (arith, lengths, full, mul_le t.total_chunks after.0.chunk_idx chunk_size last))

      complete : d.tail ≡ [] → concat d.payloads ≡ content
      complete e =
          sym (append-nil (concat d.payloads)) ∙ ap (◌++◌ (concat d.payloads)) (sym e) ∙ d.whole

      outcome :
          (controls after.1 ≡ [])
            ⊎ (EndsWith chunk_size checksum t.id t.total_chunks content after.1 (concat d.payloads)
                × ((d.tail ≡ []) ⊎ (t.total_chunks ≤ after.0.chunk_idx)))
          → (controls after.1 ≡ [])
            ⊎ ((concat d.payloads ≡ content)
                × EndsWith chunk_size checksum t.id t.total_chunks content after.1 content)
      outcome (inl none_sent) = inl none_sent
      outcome (inr (e, last)) =
          let whole : concat d.payloads ≡ content = complete (no_tail d.full last) in
          inr (
            whole,
            subst (λ b. EndsWith chunk_size checksum t.id t.total_chunks content after.1 b) whole e,
          )
