-- ===== src/Files/Listing/Listed.antt =====
-- cmd/claw/filetransfer.go: what the messages of sendDirList carry together.
use clianywhere_daemon.Prelude.{
  All-append, length-take, ℕ, zero, suc, ◌+◌, ◌-◌, ◌≤◌, ◌<◌, min, none, some, List, [], ◌∷◌, ◌++◌,
  ◌≡◌, refl, sym, ap, ap₂, ◌∙◌, ◌⊎◌, inl, inr, arith, length, take, drop, All, length-append, subst,
  drop-eq-nil,
}
use clianywhere_daemon.Protocol.{Bytes, Message, DirEntry}
use clianywhere_daemon.Files.Listing.{
  chunk_message, pack, dir_list_message, dir_list_messages, entry_sizes, send_dir_list,
  dir_list_budget,
}
use clianywhere_daemon.Files.Listing.Spans.{
  Covers, pack-Covers, part, slice_lem, part-drop, part-append,
}
use clianywhere_daemon.Files.Listing.Budget.{sum, FitsBudget, pack-FitsBudget}

-- The entries of a message: its directories, then its files.
abbrev pub listed : Message → List DirEntry
listed m = elim m.entries [ none ↦ [] | some e ↦ e.dirs ++ e.files ]

abbrev pub all_listed : List Message → List DirEntry
all_listed [] = []
all_listed (m ∷ ms) = listed m ++ all_listed ms

-- Message `i` of `total` and those after it.
abbrev pub Numbered : ℕ → ℕ → List Message → Type 0
Numbered total i [] = i ≡ total
Numbered total i (m ∷ ms) =
    (m.chunk_index ≡ i)
    × (m.total_chunks ≡ total)
    × (m.kind ≡ "dir_list")
    × Numbered total (i + 1) ms

-- Whether the entries of a message take at most the budget, or are one at most.
abbrev pub IsSmall : (DirEntry → Bytes) → Message → Type 0
IsSmall marshal m =
    (sum (entry_sizes marshal (listed m)) ≤ dir_list_budget) ⊎ (length (listed m) ≤ 1)

Numbered-length : (total i : ℕ) (ms : List Message) → Numbered total i ms → i + length ms ≡ total
Numbered-length total i [] h = omega (arith, h)
Numbered-length total i (m ∷ ms) h = omega (arith, Numbered-length total (i + 1) ms h.3)

module _ (marshal : DirEntry → Bytes) (path : Bytes) (dirs files : List DirEntry) where
  abbrev entries : List DirEntry
  entries = dirs ++ files

  message_lem :
      (total i lo hi : ℕ)
      → lo ≤ hi
      → hi ≤ length dirs + length files
      → (m : Message) × (dir_list_message path dirs files total i (lo, hi) ≡ some m)
        × (m.chunk_index ≡ i)
        × (m.total_chunks ≡ total)
        × (m.kind ≡ "dir_list")
        × (listed m ≡ part lo hi entries)
  unfolding dir_list_message chunk_message
  message_lem total i lo hi h k = (
    chunk_message path total i (record { dirs = ds; files = fs }),
    rw
        (
          slice_lem (min lo (length dirs)) (min hi (length dirs)) dirs (omega arith) (omega arith),
          dir_list_message,
        )
        (rw
          (
            slice_lem (lo - length dirs) (hi - length dirs) files (omega arith) (omega arith),
            dir_list_message,
          )
          refl),
    refl,
    refl,
    refl,
    part-append lo hi (length dirs) dirs files refl h,
  )
    where
      ds : List DirEntry
      ds = part (min lo (length dirs)) (min hi (length dirs)) dirs

      fs : List DirEntry
      fs = part (lo - length dirs) (hi - length dirs) files

  sizes : List ℕ
  sizes = entry_sizes marshal dirs ++ entry_sizes marshal files

  entry_sizes-append :
      (xs ys : List DirEntry)
      → entry_sizes marshal (xs ++ ys) ≡ entry_sizes marshal xs ++ entry_sizes marshal ys
  unfolding entry_sizes
  entry_sizes-append [] ys = refl
  entry_sizes-append (x ∷ xs) ys = ap (◌∷◌ (length (marshal x) + 1)) (entry_sizes-append xs ys)

  entry_sizes-take :
      (n : ℕ) (xs : List DirEntry)
      → entry_sizes marshal (take n xs) ≡ take n (entry_sizes marshal xs)
  unfolding entry_sizes
  entry_sizes-take zero xs = refl
  entry_sizes-take (suc n) [] = refl
  entry_sizes-take (suc n) (x ∷ xs) = ap (◌∷◌ (length (marshal x) + 1)) (entry_sizes-take n xs)

  entry_sizes-drop :
      (n : ℕ) (xs : List DirEntry)
      → entry_sizes marshal (drop n xs) ≡ drop n (entry_sizes marshal xs)
  unfolding entry_sizes
  entry_sizes-drop zero xs = refl
  entry_sizes-drop (suc n) [] = refl
  entry_sizes-drop (suc n) (x ∷ xs) = entry_sizes-drop n xs

  length-entry_sizes : (xs : List DirEntry) → length (entry_sizes marshal xs) ≡ length xs
  unfolding entry_sizes
  length-entry_sizes [] = refl
  length-entry_sizes (x ∷ xs) = ap suc (length-entry_sizes xs)

  entry_sizes-IsPositive : (xs : List DirEntry) → All (λ (n : ℕ). 0 < n) (entry_sizes marshal xs)
  unfolding entry_sizes
  entry_sizes-IsPositive [] = tt
  entry_sizes-IsPositive (x ∷ xs) = (omega arith, entry_sizes-IsPositive xs)

  part-sizes : (lo hi : ℕ) → entry_sizes marshal (part lo hi entries) ≡ part lo hi sizes
  unfolding sizes
  part-sizes lo hi =
      entry_sizes-take (hi - lo) (drop lo entries)
      ∙ ap (take (hi - lo))
          (entry_sizes-drop lo entries ∙ ap (drop lo) (entry_sizes-append dirs files))

  span-IsSmall :
      (lo hi : ℕ) (m : Message)
      → listed m ≡ part lo hi entries
      → FitsBudget sizes (lo, hi)
      → IsSmall marshal m
  span-IsSmall lo hi m e (inl fits) = inl (
      omega (
        arith,
        ap (λ (l : List DirEntry). sum (entry_sizes marshal l)) e ∙ ap sum (part-sizes lo hi),
        fits,
      ))
  span-IsSmall lo hi m e (inr one) =
      inr (omega (arith, ap length e ∙ length-take (hi - lo) (drop lo entries), one))

  messages_lem :
      (total i lo : ℕ) (cs : List (ℕ × ℕ))
      → Covers lo (length dirs + length files) cs
      → i + length cs ≡ total
      → All (FitsBudget sizes) cs
      → (ms : List Message) × (dir_list_messages path dirs files total i cs ≡ some ms)
        × Numbered total i ms
        × (all_listed ms ≡ drop lo entries)
        × All (IsSmall marshal) ms
  unfolding dir_list_messages
  messages_lem total i lo [] c e fits = (
    [],
    refl,
    omega arith,
    sym (drop-eq-nil lo entries (omega (arith, length-append dirs files, c))),
    tt,
  )
  messages_lem total i lo ((a, hi) ∷ cs) (e, h, k, c) count fits =
      let (m, made, index, of_total, kind, shows) = message_lem total i a hi h k in
      let (ms, rest, numbered, shown, small) =
        messages_lem total (i + 1) hi cs c (omega arith) fits.1 in
      (
        m ∷ ms,
        rw (made, dir_list_messages) (rw (rest, dir_list_messages) refl),
        (index, of_total, kind, numbered),
        ap₂ ◌++◌ shows shown ∙ part-drop a hi entries h ∙ ap (λ (n : ℕ). drop n entries) e,
        (span-IsSmall a hi m shows fits.0, small),
      )

  length-sizes : length sizes ≡ length dirs + length files
  unfolding sizes
  length-sizes =
      length-append (entry_sizes marshal dirs) (entry_sizes marshal files)
      ∙ ap₂ ◌+◌ (length-entry_sizes dirs) (length-entry_sizes files)

  sizes-IsPositive : All (λ (n : ℕ). 0 < n) sizes
  unfolding sizes
  sizes-IsPositive =
      All-append (λ (n : ℕ). 0 < n) (entry_sizes marshal dirs) (entry_sizes marshal files)
        (entry_sizes-IsPositive dirs) (entry_sizes-IsPositive files)

  -- A directory listing goes out without a panic, in messages numbered from 0 of their total; their
  -- entries, taken in the order sent, are all directories and then all files, each once and in
  -- order; and a message's entries take at most the budget of 23000 bytes, or are one at most.
  pub send_dir_list-IsComplete :
      (ms : List Message) × (send_dir_list marshal path dirs files ≡ some ms)
      × Numbered (length ms) 0 ms
      × (all_listed ms ≡ dirs ++ files)
      × All (IsSmall marshal) ms
  unfolding send_dir_list sizes
  send_dir_list-IsComplete =
      let chunks : List (ℕ × ℕ) =
        pack 0 0 0 (entry_sizes marshal dirs ++ entry_sizes marshal files) in
      let (ms, made, numbered, shown, small) =
        messages_lem (length chunks) 0 0 chunks
          (pack-Covers 0 0 0 (length dirs + length files) sizes (omega arith)
            (omega (arith, length-sizes)))
          (omega arith)
          (pack-FitsBudget [] sizes 0 0 0 tt sizes-IsPositive (omega arith) (omega arith)
            (omega arith) (inl (omega arith))) in
      (
        ms,
        made,
        subst (λ (n : ℕ). Numbered n 0 ms)
            (sym (Numbered-length (length chunks) 0 ms numbered) ∙ omega arith) numbered,
        shown,
        small,
      )
