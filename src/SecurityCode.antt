-- ===== src/SecurityCode.antt =====
-- cmd/claw/security_code.go: the six digits that the user may set, and the file that keeps them.
pub mod Saved
mod Tests
use clianywhere_daemon.Prelude.{
  ℕ, Bool, true, false, not, ◌&&◌, ◌||◌, Option, none, some, List, [], ◌∷◌, length, ltb, nat_beq,
  if◌then◌else◌,
}
use clianywhere_daemon.Text.{Text, trim_space, is_blank}

-- The loop of isValidSecCode
unfoldable pub all_digits : Text → Bool
all_digits [] = true
all_digits (c ∷ s) = let rest = all_digits s in if ltb c b'0' || ltb b'9' c then false else rest

-- isValidSecCode
unfoldable pub is_valid_sec_code : Text → Bool
is_valid_sec_code code = if not (nat_beq (length code) 6) then false else all_digits code

-- The content of ~/.clianywhere/security_code, none when there is no file.
abbrev pub CodeFile : Type 0
CodeFile = Option Text

-- What the file system answers: the home directory, ensureDir, os.WriteFile, os.Remove. A write that
-- fails can leave a part of what it was to write, or nothing: `write_leaves` is the file then.
pub record Disk : Type 0 where
  pub has_home : Bool
  pub has_dir : Bool
  pub write_leaves : Option CodeFile
  pub removes : Bool

-- SaveSecurityCode; the flag is false where it returns an error.
unfoldable pub save_security_code : Disk → Text → CodeFile → CodeFile × Bool
save_security_code disk code f =
    if not (is_valid_sec_code code)
    then (f, false)
    else if not (disk.has_dir && disk.has_home)
    then (f, false)
    else elim disk.write_leaves [ none ↦ (some code, true) | some left ↦ (left, false) ]

-- LoadSecurityCode, where a file that is there can be read
unfoldable pub load_security_code : Disk → CodeFile → Text
load_security_code disk none = []
load_security_code disk (some content) =
    let code = trim_space content in
    if not disk.has_home then [] else if not (is_valid_sec_code code) then [] else code

-- ClearSecurityCode; a file that is not there is no error.
unfoldable pub clear_security_code : Disk → CodeFile → CodeFile × Bool
clear_security_code disk none = (none, disk.has_home)
clear_security_code disk (some content) =
    if disk.has_home && disk.removes then (none, true) else (some content, false)

-- HasSecurityCode
unfoldable pub has_security_code : Disk → CodeFile → Bool
has_security_code disk f = not (is_blank (load_security_code disk f))
