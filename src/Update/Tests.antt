-- ===== src/Update/Tests.antt =====
-- Witness for the order of versions, and versions that the project has tests for.
use clianywhere_daemon.Prelude.{List, [], ◌∷◌, ◌++◌, ◌≡◌, refl}
use clianywhere_daemon.Text.{Text}
use clianywhere_daemon.Update.{
  same, newer, compare_versions, compare_from, split_dots, split_from, part_at, atoi_safe,
  atoi_from, int_key,
}
use clianywhere_daemon.Update.Parts.{IsCut}
use clianywhere_daemon.Update.Order.{Decides, compare_versions-Decides}

-- "1.2", "1.10" and "1.2.0"
abbrev one_two : Text
one_two = b'1' ∷ b'.' ∷ b'2' ∷ []

abbrev one_ten : Text
one_ten = b'1' ∷ b'.' ∷ b'1' ∷ b'0' ∷ []

abbrev one_two_zero : Text
one_two_zero = one_two ++ (b'.' ∷ b'0' ∷ [])

ten-after-two : compare_versions one_ten one_two ≡ newer
unfolding compare_versions compare_from split_dots split_from part_at atoi_safe atoi_from int_key
ten-after-two = refl

zeros-same : compare_versions one_two one_two_zero ≡ same
unfolding compare_versions compare_from split_dots split_from part_at atoi_safe atoi_from int_key
zeros-same = refl

compare_versions-Decides_example :
    (as' : List Text) × ((bs : List Text) × IsCut one_ten as'
      × IsCut one_two bs
      × Decides (compare_versions one_ten one_two) 0 as' bs)
compare_versions-Decides_example = compare_versions-Decides one_ten one_two
