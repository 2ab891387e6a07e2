-- ===== src/Wire.antt =====
-- encoding/binary's big-endian integers, as cmd/claw uses them in frames and nonces.
use clianywhere_daemon.Prelude.{
  ℕ, zero, suc, ◌+◌, ◌*◌, ◌/◌, ◌%◌, ◌^◌, ◌<◌, [], ◌∷◌, ◌++◌, ◌≡◌, refl, ◌∙◌, arith, length,
  length-append,
}
use clianywhere_daemon.Protocol.{Bytes}
use native.Mathlib.Nat.{pow-suc}

-- The `w` low bytes of `n`, the most significant first.
pub put_be : ℕ → ℕ → Bytes
put_be zero n = []
put_be (suc w) n = put_be w (n / 256) ++ (n % 256) ∷ []

-- binary.BigEndian.PutUint32 and PutUint64.
unfoldable pub put_uint32 : ℕ → Bytes
unfolding put_be
put_uint32 n = put_be 4 n

unfoldable pub put_uint64 : ℕ → Bytes
unfolding put_be
put_uint64 n = put_be 8 n

get_acc : ℕ → Bytes → ℕ
get_acc acc [] = acc
get_acc acc (b ∷ bs) = get_acc (acc * 256 + b) bs

-- binary.BigEndian.Uint32 and Uint64 of a slice of that length.
unfoldable pub get_be : Bytes → ℕ
unfolding get_acc
get_be bs = get_acc 0 bs

get_acc-append :
    (acc : ℕ) (bs : Bytes) (b : ℕ) → get_acc acc (bs ++ b ∷ []) ≡ get_acc acc bs * 256 + b
unfolding get_acc
get_acc-append acc [] b = refl
get_acc-append acc (x ∷ bs) b = get_acc-append (acc * 256 + x) bs b

get_acc-put_be : (w n : ℕ) → n < 256 ^ w → get_acc 0 (put_be w n) ≡ n
unfolding get_acc put_be
get_acc-put_be zero n h = omega arith
get_acc-put_be (suc w) n h =
    get_acc-append 0 (put_be w (n / 256)) (n % 256)
    ∙ omega (arith, get_acc-put_be w (n / 256) (omega (arith, pow-suc 256 w)))

length-put_be : (w n : ℕ) → length (put_be w n) ≡ w
unfolding put_be
length-put_be zero n = refl
length-put_be (suc w) n =
    omega (arith, length-append (put_be w (n / 256)) ((n % 256) ∷ []), length-put_be w (n / 256))

pub length-put_uint64 : (n : ℕ) → length (put_uint64 n) ≡ 8
unfolding put_uint64
length-put_uint64 n = length-put_be 8 n

pub length-put_uint32 : (n : ℕ) → length (put_uint32 n) ≡ 4
unfolding put_uint32
length-put_uint32 n = length-put_be 4 n

pub get_be-put_uint64 : (n : ℕ) → n < 2 ^ 64 → get_be (put_uint64 n) ≡ n
unfolding get_be put_uint64
get_be-put_uint64 n h = get_acc-put_be 8 n h

pub get_be-put_uint32 : (n : ℕ) → n < 2 ^ 32 → get_be (put_uint32 n) ≡ n
unfolding get_be put_uint32
get_be-put_uint32 n h = get_acc-put_be 4 n h
