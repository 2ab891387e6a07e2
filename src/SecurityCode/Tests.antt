-- ===== src/SecurityCode/Tests.antt =====
-- Witness for the file of the security code: 123456 is saved over 1.
use clianywhere_daemon.Prelude.{none, true, false, some, [], ◌∷◌, ◌≡◌, ◌⊎◌}
use clianywhere_daemon.Text.{Text}
use clianywhere_daemon.SecurityCode.{
  Disk, CodeFile, is_valid_sec_code, load_security_code, has_security_code,
}
use clianywhere_daemon.SecurityCode.Saved.{Breaks, Refuses, Takes, load-save}

abbrev disk : Disk
disk = record { has_home = true; has_dir = true; write_leaves = none; removes = true }

abbrev code : Text
code = b'1' ∷ b'2' ∷ b'3' ∷ b'4' ∷ b'5' ∷ b'6' ∷ []

abbrev old : CodeFile
old = some (b'1' ∷ [])

load-save_example :
    (Takes disk code old ⊎ (Refuses disk code old ⊎ Breaks disk code old))
    × (((is_valid_sec_code (load_security_code disk old) ≡ true)
          × (has_security_code disk old ≡ true))
        ⊎ ((load_security_code disk old ≡ []) × (has_security_code disk old ≡ false)))
load-save_example = load-save disk code old
