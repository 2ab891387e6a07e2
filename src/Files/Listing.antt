-- ===== src/Files/Listing.antt =====
-- cmd/claw/filetransfer.go: sendDirList, which cuts the listing of a directory into messages.
--
-- `marshal` is json.Marshal of an entry. A slice out of range panics: `none`.
pub mod Spans
pub mod Budget
pub mod Listed
use clianywhere_daemon.Prelude.{
  ℕ, zero, suc, ◌+◌, ◌-◌, Bool, ◌&&◌, Option, none, some, List, [], ◌∷◌, ◌++◌, map, min, length,
  take, drop, ltb, leb, if◌then◌else◌,
}
use clianywhere_daemon.Protocol.{
  Bytes, Message, empty_message, DirEntry, DirEntries, secure_max_text_payload,
}

abbrev pub dir_list_envelope_overhead : ℕ
dir_list_envelope_overhead = 1000

abbrev pub dir_list_budget : ℕ
dir_list_budget = secure_max_text_payload - dir_list_envelope_overhead

-- The test of the packing loop: the entry does not fit the chunk that is open.
unfoldable pub overflows : ℕ → ℕ → Bool
overflows cost s = ltb 0 cost && ltb dir_list_budget (cost + s)

-- The packing loop at entry `i`: the spans that it appends from here on.
unfoldable pub pack : ℕ → ℕ → ℕ → List ℕ → List (ℕ × ℕ)
pack i start cost [] = (start, i) ∷ []
pack i start cost (s ∷ ss) =
    let cut = overflows cost s in
    let rest = pack (i + 1) (if cut then i else start) (if cut then s else cost + s) ss in
    if cut then (start, i) ∷ rest else rest

-- `xs[lo:hi]`
unfoldable pub slice {ℓ} : {A : Type ℓ} → ℕ → ℕ → List A → Option (List A)
slice lo hi xs =
    if leb lo hi && leb hi (length xs) then some (take (hi - lo) (drop lo xs)) else none

unfoldable pub chunk_message : Bytes → ℕ → ℕ → DirEntries → Message
chunk_message path total i entries = record empty_message {
  kind = "dir_list";
  path = path;
  total_chunks = total;
  chunk_index = i;
  entries = some entries;
}

-- The message of one span.
unfoldable pub dir_list_message :
    Bytes → List DirEntry → List DirEntry → ℕ → ℕ → ℕ × ℕ → Option Message
dir_list_message path dirs files total i (lo, hi) =
    let n = length dirs in
    elim (slice (min lo n) (min hi n) dirs) [
      | none ↦ none
      | some ds ↦ elim (slice (lo - n) (hi - n) files) [
        | none ↦ none
        | some fs ↦ some (chunk_message path total i (record { dirs = ds; files = fs }))
      ]
    ]

unfoldable pub dir_list_messages :
    Bytes → List DirEntry → List DirEntry → ℕ → ℕ → List (ℕ × ℕ) → Option (List Message)
dir_list_messages path dirs files total i [] = some []
dir_list_messages path dirs files total i (c ∷ cs) =
    elim (dir_list_message path dirs files total i c) [
      | none ↦ none
      | some m ↦ elim (dir_list_messages path dirs files total (i + 1) cs) [
        | none ↦ none
        | some ms ↦ some (m ∷ ms)
      ]
    ]

unfoldable pub entry_sizes : (DirEntry → Bytes) → List DirEntry → List ℕ
entry_sizes marshal [] = []
entry_sizes marshal (e ∷ es) = (length (marshal e) + 1) ∷ entry_sizes marshal es

-- sendDirList
unfoldable pub send_dir_list :
    (DirEntry → Bytes) → Bytes → List DirEntry → List DirEntry → Option (List Message)
send_dir_list marshal path dirs files =
    let chunks = pack 0 0 0 (entry_sizes marshal dirs ++ entry_sizes marshal files) in
    dir_list_messages path dirs files (length chunks) 0 chunks
