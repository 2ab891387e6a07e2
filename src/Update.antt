-- ===== src/Update.antt =====
-- internal/checkupdate/checkupdate.go: versions and their order, and the choice of an asset.
mod Parts
mod Order
mod Tests
use clianywhere_daemon.Prelude.{
  ℕ, zero, suc, ◌+◌, ◌-◌, ◌*◌, ◌%◌, ◌^◌, Bool, true, false, not, ◌&&◌, ◌||◌, Option, none, some,
  List, [], ◌∷◌, ◌++◌, String, length, get_or, ltb, leb, nat_beq, if◌then◌else◌, string_key, ◌==◌,
}
use clianywhere_daemon.Text.{Text, is_blank, trim_space}

-- strings.TrimPrefix of one character
unfoldable pub trim_prefix : ℕ → Text → Text
trim_prefix p [] = []
trim_prefix p (c ∷ s) = if nat_beq c p then s else c ∷ s

-- ParseVersion
unfoldable pub parse_version : Text → Text
parse_version name = trim_prefix b'V' (trim_prefix b'v' (trim_space name))

-- strings.Split(s, "."), with the part that is open.
unfoldable pub split_from : Text → Text → List Text
split_from part [] = part ∷ []
split_from part (c ∷ s) =
    let cut = split_from [] s in
    let longer = split_from (part ++ c ∷ []) s in if nat_beq c b'.' then part ∷ cut else longer

unfoldable pub split_dots : Text → List Text
split_dots s = split_from [] s

-- The loop of atoiSafe; int is 64 bits wide, kept as a pattern.
unfoldable pub atoi_from : ℕ → Text → ℕ
atoi_from n [] = n
atoi_from n (c ∷ s) =
    let rest = atoi_from ((n * 10 + (c - b'0')) % 2 ^ 64) s in
    if ltb c b'0' || ltb b'9' c then 0 else rest

unfoldable pub atoi_safe : Text → ℕ
atoi_safe s = atoi_from 0 s

-- The order of two ints by their patterns: each moved up by 2^63.
unfoldable pub int_key : ℕ → ℕ
int_key n = (n + 2 ^ 63) % 2 ^ 64

-- The sign of CompareVersions' result.
pub data Age : Type 0 where
  older same newer : Age

-- `if i < len(as) { av = atoiSafe(as[i]) }`
unfoldable pub part_at : List Text → ℕ → ℕ
part_at parts i = if ltb i (length parts) then atoi_safe (get_or parts i []) else 0

-- The loop of CompareVersions from part `i` on, with the rounds left.
unfoldable pub compare_from : ℕ → ℕ → List Text → List Text → Age
compare_from zero i as' bs = same
compare_from (suc rounds) i as' bs =
    let rest = compare_from rounds (i + 1) as' bs in
    let av = part_at as' i in
    let bv = part_at bs i in
    if not (nat_beq av bv) then (if ltb (int_key bv) (int_key av) then newer else older) else rest

-- CompareVersions
unfoldable pub compare_versions : Text → Text → Age
compare_versions a b =
    let as' = split_dots a in
    let bs = split_dots b in
    let n = if ltb (length as') (length bs) then length bs else length as' in
    compare_from n 0 as' bs

-- Available of CheckUpdate; `none` is the error of a name with no version.
unfoldable pub update_available : Text → Text → Option Bool
update_available name current =
    let latest = parse_version name in
    if is_blank latest
    then none
    else some
        (elim (compare_versions latest current) [ newer ↦ true | same ↦ false | older ↦ false ])

pub record Asset : Type 0 where
  pub name : String
  pub url : String

unfoldable pub find_asset : String → List Asset → Option Asset
find_asset want [] = none
find_asset want (a ∷ rest) = if a.name == want then some a else find_asset want rest

-- PlatformAsset
unfoldable pub platform_asset : List String → List Asset → Option Asset
platform_asset [] assets = none
platform_asset (want ∷ names) assets =
    let later = platform_asset names assets in
    elim (find_asset want assets) [ none ↦ later | some a ↦ some a ]
