-- ===== src/Rtc/Frames.antt =====
-- cmd/claw/webrtc.go: the frames that frameRoutesToFile finds are those that carry file chunks.
use clianywhere_daemon.Prelude.{
  ℕ, zero, suc, ◌<◌, ◌≡◌, ◌⊎◌, inl, inr, refl, ap, ap₂, ◌∙◌, true, false, [], ◌∷◌, ◌++◌, arith,
  length, length-append, length-take, take, drop, get_or, nat_beq, nat_beq_iff, Bool-cases,
}
use clianywhere_daemon.Protocol.{Bytes, opcode_file_transfer, opcode_secure_binary}
use clianywhere_daemon.Rtc.{frame_routes_to_file}

-- A file chunk, or the envelope [0x07][8 bytes][opcode][ciphertext] of one.
abbrev pub IsFileFrame : Bytes → Type 0
IsFileFrame b =
    ((rest : Bytes) × (b ≡ opcode_file_transfer ∷ rest))
    ⊎ ((seq : Bytes) × ((ct : Bytes) × (length seq ≡ 8)
          × (b ≡ opcode_secure_binary ∷ (seq ++ opcode_file_transfer ∷ ct))))

cut_at :
    (xs : Bytes) (n v : ℕ)
    → n < length xs
    → get_or xs n 0 ≡ v
    → xs ≡ take n xs ++ v ∷ drop (suc n) xs
cut_at [] n v h e = absurd (omega arith)
cut_at (x ∷ xs) zero v h e = ap (λ (y : ℕ). y ∷ xs) e
cut_at (x ∷ xs) (suc n) v h e = ap (◌∷◌ x) (cut_at xs n v (omega arith) e)

get_or_behind : (xs ys : Bytes) (v n : ℕ) → length xs ≡ n → get_or (xs ++ v ∷ ys) n 0 ≡ v
get_or_behind [] ys v zero h = refl
get_or_behind [] ys v (suc n) h = absurd (omega arith)
get_or_behind (x ∷ xs) ys v zero h = absurd (omega arith)
get_or_behind (x ∷ xs) ys v (suc n) h = get_or_behind xs ys v n (omega arith)

sealed_route :
    (op : ℕ) (rest : Bytes)
    → op ≡ opcode_secure_binary
    → 8 < length rest
    → get_or rest 8 0 ≡ opcode_file_transfer
    → IsFileFrame (op ∷ rest)
sealed_route op rest o long inner = inr (
  take 8 rest,
  (
    drop 9 rest,
    length-take 8 rest ∙ omega (arith, long),
    ap₂ ◌∷◌ o (cut_at rest 8 opcode_file_transfer long inner),
  ),
)

pub routed-IsFileFrame : (b : Bytes) → frame_routes_to_file b ≡ true → IsFileFrame b
unfolding frame_routes_to_file
routed-IsFileFrame [] h = cc
routed-IsFileFrame (op ∷ rest) h = elim (Bool-cases (nat_beq op opcode_file_transfer)) [
  | inl plain ↦ inl (rest, ap (λ (y : ℕ). y ∷ rest) ((nat_beq_iff op opcode_file_transfer).0 plain))
  | inr other ↦ sealed_route op rest (ground arith) (ground arith) (ground arith)
]

IsFileFrame-routed : (b : Bytes) → IsFileFrame b → frame_routes_to_file b ≡ true
unfolding frame_routes_to_file
IsFileFrame-routed b (inl (rest, e)) = ap frame_routes_to_file e
IsFileFrame-routed b (inr (seq, (ct, eight, e))) =
    ap frame_routes_to_file e
    ∙ ground (
      arith,
      length-append seq (opcode_file_transfer ∷ ct),
      get_or_behind seq ct opcode_file_transfer 8 eight,
    )

pub unrouted-IsFileFrame : (b : Bytes) → frame_routes_to_file b ≡ false → ¬ IsFileFrame b
unrouted-IsFileFrame b h f = cc (h, IsFileFrame-routed b f)
