-- ===== src/Files/Sender/Chunks.antt =====
-- cmd/claw/filetransfer.go: the end of sendFile, and one chunk of it.
use clianywhere_daemon.Prelude.{
  ap₂, drop-eq-nil, concat-snoc, ℕ, ◌+◌, ◌*◌, ◌≤◌, ◌<◌, true, false, List, [], ◌∷◌, ◌++◌, ◌≡◌, refl,
  sym, ap, ◌∙◌, ◌⊎◌, inl, inr, arith, length, take, drop, concat, append-nil, append_assoc,
  All-append, length-append, take-append-drop, length-take, Bool-cases,
}
use native.Mathlib.Decide.{dec_lt}
use clianywhere_daemon.Protocol.{Bytes}
use clianywhere_daemon.Batcher.{is_empty}
use clianywhere_daemon.Files.Sender.Delivery.{
  IsPayload, numbered-snoc, numbered, Quiet-Delivers, controls-append, data_frames,
  data_frames-append, controls, Delivers,
}
use clianywhere_daemon.Files.Sender.{
  Transfer, Output, frame, control, Turn, chunk_frame, ends, end_message, finish, send_chunk,
}

module _ (size : ℕ) (checksum : Bytes → Bytes) (id total : ℕ) (content : Bytes) where
  pub nonempty_length : (b : Bytes) → is_empty b ≡ false → 0 < length b
  nonempty_length [] h = cc
  nonempty_length (x ∷ b) h = omega arith

  module _ (positive : 0 < size) {s : Transfer} {out : List Output}
      (d : Delivers size checksum id total content s out) where
    pub finish-Delivers :
        (t : Turn)
        → s.running ≡ true
        → (s.rest ≡ []) ⊎ (total ≤ s.chunk_idx)
        → Delivers size checksum id total content
            (finish checksum t s).0
            (out ++ (finish checksum t s).1)
    unfolding finish ends end_message
    finish-Delivers t r why = elim (Bool-cases t.accepted) [
      | inl e ↦ rw e (record {
        payloads = d.payloads;
        tail = d.tail;
        same_id = d.same_id;
        same_total = d.same_total;
        framed =
            data_frames-append out (control (end_message checksum s) ∷ [])
            ∙ append-nil (data_frames out)
            ∙ d.framed;
        counted = d.counted;
        bounded = d.bounded;
        whole = d.whole;
        unread = λ q. cc;
        hashes = λ q. cc;
        fits = d.fits;
        full = d.full;
        unended = λ q. cc;
        ended = inr (
          (
            end_message checksum s,
            controls-append out (control (end_message checksum s) ∷ [])
                ∙ ap (λ l. l ++ end_message checksum s ∷ []) (d.unended r),
            ap checksum (d.hashes r),
            d.same_id,
          ),
          at_end why,
        );
      })
      | inr e ↦ rw e (
          Quiet-Delivers size checksum id total content out
            (record {
              id_kept = refl;
              total_kept = refl;
              idx_kept = refl;
              rest_kept = refl;
              hashed_kept = refl;
              running_kept = λ q. r;
              no_data = refl;
              no_end = refl;
            })
            d)
    ]
      where
        at_end : (s.rest ≡ []) ⊎ (total ≤ s.chunk_idx) → (d.tail ≡ []) ⊎ (total ≤ s.chunk_idx)
        at_end (inl e) = inl (d.unread r ∙ e)
        at_end (inr le) = inr le

    pub send_chunk-Delivers :
        (t : Turn)
        → s.running ≡ true
        → s.chunk_idx < total
        → is_empty (take size s.rest) ≡ false
        → Delivers size checksum id total content
            (send_chunk size t (take size s.rest) s).0
            (out ++ (send_chunk size t (take size s.rest) s).1)
    unfolding send_chunk ends
    send_chunk-Delivers t r more some_read = elim (Bool-cases t.accepted) [
      | inl e ↦ rw e sent
      | inr e ↦ rw e unsent
    ]
      where
        p : Bytes
        p = take size s.rest

        read_some : 0 < length p
        read_some = nonempty_length (take size s.rest) some_read

        tail_read : d.tail ≡ s.rest
        tail_read = d.unread r

        grown : length (concat (d.payloads ++ p ∷ [])) ≡ length (concat d.payloads) + length p
        grown = ap length (concat-snoc d.payloads p) ∙ length-append (concat d.payloads) p

        next_full :
            (d.tail ≡ []) ⊎ (length (concat d.payloads) ≡ s.chunk_idx * size)
            → (drop size s.rest ≡ [])
              ⊎ (length (concat (d.payloads ++ p ∷ [])) ≡ (s.chunk_idx + 1) * size)
        next_full (inl e) =
            inl (drop-eq-nil size s.rest (omega (arith, ap length (sym tail_read ∙ e))))
        next_full (inr e) = elim (dec_lt size (length s.rest)) [
          | yes longer ↦ inr (grown ∙ grind (arith, length-take size s.rest, e))
          | no last ↦ inl (drop-eq-nil size s.rest (omega arith))
        ]

        still_open : controls (out ++ frame (chunk_frame s.task.id s.chunk_idx p) ∷ []) ≡ []
        still_open =
            controls-append out (frame (chunk_frame s.task.id s.chunk_idx p) ∷ [])
            ∙ append-nil (controls out)
            ∙ d.unended r

        sent :
            Delivers size checksum id total content
              (record s {
                task = record s.task { sent_chunks = s.chunk_idx + 1 };
                rest = drop size s.rest;
                hashed = s.hashed ++ p;
                chunk_idx = s.chunk_idx + 1;
              })
              (out ++ frame (chunk_frame s.task.id s.chunk_idx p) ∷ [])
        sent = record {
          payloads = d.payloads ++ p ∷ [];
          tail = drop size s.rest;
          same_id = d.same_id;
          same_total = d.same_total;
          framed =
              data_frames-append out (frame (chunk_frame s.task.id s.chunk_idx p) ∷ [])
              ∙ ap₂ (λ l n. l ++ chunk_frame n s.chunk_idx p ∷ []) d.framed d.same_id
              ∙ ap (λ n. numbered id 0 d.payloads ++ chunk_frame id n p ∷ [])
                  (omega (arith, d.counted))
              ∙ sym (numbered-snoc id 0 d.payloads p);
          bounded = omega arith;
          counted = length-append d.payloads (p ∷ []) ∙ omega (arith, d.counted);
          whole =
              ap (λ l. l ++ drop size s.rest) (concat-snoc d.payloads p)
              ∙ append_assoc (concat d.payloads) p (drop size s.rest)
              ∙ ap (λ l. concat d.payloads ++ l) (take-append-drop size s.rest ∙ sym tail_read)
              ∙ d.whole;
          unread = λ q. refl;
          hashes = λ q. ap (λ l. l ++ p) (d.hashes r) ∙ sym (concat-snoc d.payloads p);
          fits =
              All-append (IsPayload size) d.payloads (p ∷ []) d.fits
                ((read_some, omega (arith, length-take size s.rest)), tt);
          full = next_full d.full;
          unended = λ q. still_open;
          ended = inl still_open;
        }

        unsent :
            Delivers size checksum id total content
              (ends (record s { rest = drop size s.rest; hashed = s.hashed ++ p }))
              (out ++ [])
        unsent = record {
          payloads = d.payloads;
          tail = d.tail;
          same_id = d.same_id;
          same_total = d.same_total;
          framed = ap data_frames (append-nil out) ∙ d.framed;
          counted = d.counted;
          bounded = d.bounded;
          whole = d.whole;
          unread = λ q. cc;
          hashes = λ q. cc;
          fits = d.fits;
          full = d.full;
          unended = λ q. cc;
          ended = rw (append-nil out) d.ended;
        }
