-- ===== src/Files/Sender/Delivery.antt =====
-- cmd/claw/filetransfer.go: what the frames that sendFile has sent hold, after any sequence of
-- passes, acknowledgements and cancellations.
use clianywhere_daemon.Prelude.{
  ℕ, ◌+◌, ◌*◌, ◌≤◌, ◌<◌, true, List, [], ◌∷◌, ◌++◌, ◌≡◌, refl, sym, ap, ◌∙◌, ◌⊎◌, arith, length,
  concat, All, append-nil,
}
use clianywhere_daemon.Protocol.{Bytes, Message}
use clianywhere_daemon.Files.Sender.{Transfer, Output, frame, control, tells, chunk_frame}

-- The frames with file data in them, and the end messages, in the order sent.
abbrev pub data_frames : List Output → List Bytes
data_frames [] = []
data_frames (frame b ∷ out) = b ∷ data_frames out
data_frames (control m ∷ out) = data_frames out
data_frames (tells m ∷ out) = data_frames out

abbrev pub controls : List Output → List Message
controls [] = []
controls (frame b ∷ out) = controls out
controls (control m ∷ out) = m ∷ controls out
controls (tells m ∷ out) = controls out

-- The frames of some payloads, numbered from `idx`.
unfoldable pub numbered : ℕ → ℕ → List Bytes → List Bytes
numbered id idx [] = []
numbered id idx (p ∷ ps) = chunk_frame id idx p ∷ numbered id (idx + 1) ps

pub data_frames-append :
    (out more : List Output) → data_frames (out ++ more) ≡ data_frames out ++ data_frames more
data_frames-append [] more = refl
data_frames-append (frame b ∷ out) more = ap (◌∷◌ b) (data_frames-append out more)
data_frames-append (control m ∷ out) more = data_frames-append out more
data_frames-append (tells m ∷ out) more = data_frames-append out more

pub controls-append :
    (out more : List Output) → controls (out ++ more) ≡ controls out ++ controls more
controls-append [] more = refl
controls-append (frame b ∷ out) more = controls-append out more
controls-append (control m ∷ out) more = ap (◌∷◌ m) (controls-append out more)
controls-append (tells m ∷ out) more = controls-append out more

pub numbered-snoc :
    (id idx : ℕ) (ps : List Bytes) (p : Bytes)
    → numbered id idx (ps ++ p ∷ []) ≡ numbered id idx ps ++ chunk_frame id (idx + length ps) p ∷ []
unfolding numbered
numbered-snoc id idx [] p = ap (λ i. chunk_frame id i p ∷ []) (omega arith)
numbered-snoc id idx (q ∷ ps) p = ap (◌∷◌ (chunk_frame id idx q)) (
    numbered-snoc id (idx + 1) ps p
    ∙ ap (λ i. numbered id (idx + 1) ps ++ chunk_frame id i p ∷ []) (omega arith))

-- A payload that is not empty and fits the chunk size.
abbrev pub IsPayload : ℕ → Bytes → Type 0
IsPayload size p = (0 < length p) × (length p ≤ size)

module _ (size : ℕ) (checksum : Bytes → Bytes) (id total : ℕ) (content : Bytes) where
  -- The end message for some bytes.
  abbrev pub EndsWith : List Output → Bytes → Type 0
  EndsWith out bytes =
      (m : Message) × (controls out ≡ m ∷ []) × (m.checksum ≡ checksum bytes) × (m.file_id ≡ id)

  -- `payloads` have been sent and `tail` has not.
  pub record Delivers (s : Transfer) (out : List Output) : Type 0 where
    pub payloads : List Bytes
    pub tail : Bytes
    pub same_id : s.task.id ≡ id
    pub same_total : s.task.total_chunks ≡ total
    pub framed : data_frames out ≡ numbered id 0 payloads
    pub counted : length payloads ≡ s.chunk_idx
    pub bounded : s.chunk_idx ≤ total
    pub whole : concat payloads ++ tail ≡ content
    pub unread : s.running ≡ true → tail ≡ s.rest
    pub hashes : s.running ≡ true → s.hashed ≡ concat payloads
    pub fits : All (IsPayload size) payloads
    pub full : (tail ≡ []) ⊎ (length (concat payloads) ≡ s.chunk_idx * size)
    pub unended : s.running ≡ true → controls out ≡ []
    pub ended :
        (controls out ≡ [])
        ⊎ (EndsWith out (concat payloads) × ((tail ≡ []) ⊎ (total ≤ s.chunk_idx)))

  -- A step that reads nothing, and sends neither data nor the end.
  pub record Quiet (s s' : Transfer) (more : List Output) : Type 0 where
    pub id_kept : s'.task.id ≡ s.task.id
    pub total_kept : s'.task.total_chunks ≡ s.task.total_chunks
    pub idx_kept : s'.chunk_idx ≡ s.chunk_idx
    pub rest_kept : s'.rest ≡ s.rest
    pub hashed_kept : s'.hashed ≡ s.hashed
    pub running_kept : s'.running ≡ true → s.running ≡ true
    pub no_data : data_frames more ≡ []
    pub no_end : controls more ≡ []

  pub Quiet-Delivers :
      {s s' : Transfer} {more : List Output} (out : List Output)
      → Quiet s s' more
      → Delivers s out
      → Delivers s' (out ++ more)
  Quiet-Delivers {s} {s'} {more} out q d = record {
    payloads = d.payloads;
    tail = d.tail;
    same_id = q.id_kept ∙ d.same_id;
    same_total = q.total_kept ∙ d.same_total;
    framed =
        data_frames-append out more
        ∙ ap (λ l. data_frames out ++ l) q.no_data
        ∙ append-nil (data_frames out)
        ∙ d.framed;
    counted = d.counted ∙ sym q.idx_kept;
    bounded = rw q.idx_kept d.bounded;
    whole = d.whole;
    unread = λ r. d.unread (q.running_kept r) ∙ sym q.rest_kept;
    hashes = λ r. q.hashed_kept ∙ d.hashes (q.running_kept r);
    fits = d.fits;
    full = rw q.idx_kept d.full;
    unended = λ r. same_controls ∙ d.unended (q.running_kept r);
    ended = rw (same_controls, q.idx_kept) d.ended;
  }
    where
      same_controls : controls (out ++ more) ≡ controls out
      same_controls =
          controls-append out more
          ∙ ap (λ l. controls out ++ l) q.no_end
          ∙ append-nil (controls out)
