-- ===== src/Sessions/Terminals.antt =====
-- cmd/claw/terminal.go: the terminal that a session keeps of its output.
use clianywhere_daemon.Prelude.{
  ℕ, zero, suc, ◌+◌, ◌%◌, ◌^◌, Option, none, some, [], ◌∷◌, length, nat_beq, if◌then◌else◌,
}
use clianywhere_daemon.Protocol.{Bytes}
use clianywhere_daemon.Batcher.{is_empty}

-- internal/xterm; a resize can panic in the reflow, which is `none`.
pub record Emulator (Screen : Type 0) : Type 0 where
  -- of a number of lines, columns and rows
  pub fresh : ℕ → ℕ → ℕ → Screen
  pub feed : Screen → Bytes → Screen
  pub reflow : Screen → ℕ → ℕ → Option Screen
  pub serialize : Screen → Bytes
  pub scrollback : Screen → ℕ

pub record Terminal (Screen : Type 0) : Type 0 where
  pub screen : Screen
  pub cols : ℕ
  pub rows : ℕ
  pub seq : ℕ

-- `bytes.ReplaceAll(data, pattern, nil)`
unfoldable pub strip_prefix : Bytes → Bytes → Option Bytes
strip_prefix [] s = some s
strip_prefix (p ∷ ps) [] = none
strip_prefix (p ∷ ps) (c ∷ s) = let rest = strip_prefix ps s in if nat_beq p c then rest else none

-- With one round for each byte.
unfoldable pub remove_all : ℕ → Bytes → Bytes → Bytes
remove_all zero pattern s = s
remove_all (suc fuel) pattern [] = []
remove_all (suc fuel) pattern (c ∷ s) = elim (strip_prefix pattern (c ∷ s)) [
  | none ↦ c ∷ remove_all fuel pattern s
  | some rest ↦ remove_all fuel pattern rest
]

-- "\033[3J" and "\033[3;J"
abbrev pub clear_scrollback : Bytes
clear_scrollback = 27 ∷ 91 ∷ 51 ∷ 74 ∷ []

abbrev pub clear_scrollback_semicolon : Bytes
clear_scrollback_semicolon = 27 ∷ 91 ∷ 51 ∷ 59 ∷ 74 ∷ []

unfoldable pub without_clears : Bytes → Bytes
without_clears s =
    let once = remove_all (length s) clear_scrollback s in
    remove_all (length once) clear_scrollback_semicolon once

module _ {Screen : Type 0} (e : Emulator Screen) where
  -- NewTerminal
  unfoldable pub new_terminal : ℕ → ℕ → ℕ → Terminal Screen
  new_terminal lines cols rows = record {
    screen = e.fresh lines cols rows;
    cols = cols;
    rows = rows;
    seq = 0;
  }

  -- Write of Terminal
  unfoldable pub write : Bytes → Terminal Screen → Terminal Screen × ℕ
  write b t =
      let seq = (t.seq + 1) % 2 ^ 64 in
      let screen = if is_empty b then t.screen else e.feed t.screen (without_clears b) in
      (record t { screen = screen; seq = seq }, seq)

  -- Read and ReadAt of Terminal
  unfoldable pub read : Terminal Screen → Bytes × ℕ
  read t = (e.serialize t.screen, t.seq)

  unfoldable pub read_at : ℕ → ℕ → Terminal Screen → Bytes × ℕ
  read_at cols rows t =
      let tmp = e.fresh (e.scrollback t.screen) cols rows in
      (e.serialize (e.feed tmp (e.serialize t.screen)), t.seq)
