-- ===== src/Files/Names.antt =====
-- cmd/claw/filetransfer.go: names and paths, as byte strings with `/` between the parts, and what
-- the code uses of path/filepath.
use clianywhere_daemon.Prelude.{
  ◌||◌, ◌&&◌, not, ◌-◌, Bool, false, [], ◌∷◌, ◌++◌, length, take, nat_beq, map, if◌then◌else◌, ℕ,
}
use clianywhere_daemon.Protocol.{Bytes}
use clianywhere_daemon.Batcher.{is_empty}

abbrev pub slash : ℕ
slash = 47

abbrev pub backslash : ℕ
backslash = 92

abbrev pub dot : ℕ
dot = 46

abbrev pub colon : ℕ
colon = 58

unfoldable pub has_slash : Bytes → Bool
has_slash [] = false
has_slash (c ∷ s) = nat_beq c slash || has_slash s

-- filepath.Ext: from the last dot of the last part on
unfoldable pub ext : Bytes → Bytes
unfolding has_slash
ext [] = []
ext (c ∷ s) =
    let rest = ext s in
    if has_slash s || not (is_empty rest) then rest else if nat_beq c dot then c ∷ s else []

unfoldable pub strip_slashes : Bytes → Bytes
strip_slashes [] = []
strip_slashes (c ∷ s) =
    let rest = strip_slashes s in
    if is_empty rest then (if nat_beq c slash then [] else c ∷ []) else c ∷ rest

unfoldable pub after_slash : Bytes → Bytes
unfolding has_slash
after_slash [] = []
after_slash (c ∷ s) = let rest = after_slash s in if has_slash (c ∷ s) then rest else c ∷ s

-- filepath.Base
unfoldable pub base : Bytes → Bytes
unfolding strip_slashes after_slash
base path =
    if is_empty path
    then dot ∷ []
    else let last = after_slash (strip_slashes path) in if is_empty last then slash ∷ [] else last

-- filepath.Join of a clean directory and a name with no slash
unfoldable pub join : Bytes → Bytes → Bytes
join dir name = dir ++ slash ∷ name

-- stagedName of StageFile: the time goes between the name and its extension.
unfoldable pub staged_name : Bytes → Bytes → Bytes
unfolding ext
staged_name name time = take (length name - length (ext name)) name ++ (95 ∷ (time ++ ext name))

unfoldable pub forward : ℕ → ℕ
forward c = if nat_beq c backslash then slash else c

-- the test for a drive letter with nothing, or a dot, after its colon
unfoldable pub is_bare_drive : Bytes → Bool
is_bare_drive [] = false
is_bare_drive (c ∷ []) = false
is_bare_drive (c ∷ d ∷ []) = nat_beq d colon
is_bare_drive (c ∷ d ∷ e ∷ []) = nat_beq d colon && nat_beq e dot
is_bare_drive (c ∷ d ∷ e ∷ f ∷ s) = false

-- toForwardSlash
unfoldable pub to_forward_slash : Bytes → Bytes
unfolding forward is_bare_drive
to_forward_slash path =
    let p = map forward path in if is_bare_drive p then take 2 p ++ slash ∷ [] else p
