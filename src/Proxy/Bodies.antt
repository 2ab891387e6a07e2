-- ===== src/Proxy/Bodies.antt =====
-- cmd/claw/proxy_manager.go: the messages of an HTTP response, and the frames of a tunnel.
use clianywhere_daemon.Prelude.{
  ◌/◌, ◌-◌, nat_beq, subst, drop-drop, append-nil, length-drop, ℕ, zero, suc, ◌+◌, ◌-◌, ◌*◌, ◌<◌,
  ◌≤◌, List, [], ◌∷◌, ◌++◌, String, ◌≡◌, refl, sym, ap, ap₂, ◌∙◌, inl, inr, arith, length,
  length-take, take, drop, take-append-drop, drop-eq-nil, ltb, Bool-cases,
}
use clianywhere_daemon.Prelude.Blocks.{le-ceil-mul, ceil-le}
use clianywhere_daemon.Protocol.{Bytes, Message}
use clianywhere_daemon.Proxy.{
  http_chunk, http_chunks, http_chunk_size, http_total_chunks, http_response, response_head,
}

-- The body that the messages carry together.
abbrev pub payloads : List Message → Bytes
payloads [] = []
payloads (m ∷ ms) = m.payload ++ payloads ms

-- Message `i` of `total` and those after it, each of one request and with a chunk that is not too long.
abbrev pub IsSequence : String → ℕ → ℕ → List Message → Type 0
IsSequence id total i [] = i ≡ total
IsSequence id total i (m ∷ ms) =
    (m.session_id ≡ id)
    × (m.chunk_index ≡ i)
    × (m.total_chunks ≡ total)
    × (length m.payload ≤ http_chunk_size)
    × IsSequence id total (i + 1) ms

take-rest : (n : ℕ) (b : Bytes) → length b ≤ n → take n b ≡ b
take-rest zero [] h = refl
take-rest zero (x ∷ b) h = absurd (omega arith)
take-rest (suc n) [] h = refl
take-rest (suc n) (x ∷ b) h = ap (◌∷◌ x) (take-rest n b (omega arith))

short : (n : ℕ) (b : Bytes) (m : ℕ) → n ≤ m → length (take n b) ≤ m
short n b m h = ground (arith, length-take n b)

length-chunks :
    (response : Message) (body : Bytes) (total rounds i : ℕ)
    → length (http_chunks response body total rounds i) ≡ rounds
unfolding http_chunks
length-chunks response body total zero i = refl
length-chunks response body total (suc rounds) i =
    omega (arith, length-chunks response body total rounds (i + 1))

-- A number of chunks that has room for `n` bytes, and the least such number that is positive.
abbrev pub IsLeast : ℕ → ℕ → Type 0
IsLeast n total =
    (n ≤ total * http_chunk_size)
    × (0 < total)
    × ((m : ℕ) → 0 < m → n ≤ m * http_chunk_size → total ≤ m)

total_lem : (n : ℕ) → IsLeast n (http_total_chunks n)
unfolding http_total_chunks
total_lem n = elim (Bool-cases (nat_beq ((n + http_chunk_size - 1) / http_chunk_size) 0)) [
  | inl e ↦ rw e (ground (arith, le-ceil-mul n http_chunk_size), omega arith, λ m pos fits. pos)
  | inr e ↦ rw e (
    le-ceil-mul n http_chunk_size (omega arith),
    ground arith,
    λ m pos fits. ceil-le n http_chunk_size m (omega arith) fits,
  )
]

module _ (response : Message) (body : Bytes) (total : ℕ) where
  -- One chunk and what follows it.
  chunk-drop :
      (i : ℕ)
      → (http_chunk response body total i).payload ++ drop ((i + 1) * http_chunk_size) body
        ≡ drop (i * http_chunk_size) body
  unfolding http_chunk
  chunk-drop i = elim (Bool-cases (ltb (length body) (i * http_chunk_size + http_chunk_size))) [
    | inl last ↦ rw last (
        ap₂ ◌++◌
          (take-rest (length body - i * http_chunk_size) (drop (i * http_chunk_size) body)
            (omega (arith, length-drop (i * http_chunk_size) body)))
          (drop-eq-nil ((i + 1) * http_chunk_size) body (ground arith))
        ∙ append-nil (drop (i * http_chunk_size) body))
    | inr more ↦ rw more (
        ap₂ (λ k l. take k (drop (i * http_chunk_size) body) ++ l)
          {x = i * http_chunk_size + http_chunk_size - i * http_chunk_size} {y = http_chunk_size}
          (omega arith)
          (ap (λ (n : ℕ). drop n body) (omega arith)
            ∙ sym (
                drop-drop (i * http_chunk_size) http_chunk_size
                  (i * http_chunk_size + http_chunk_size) body refl))
        ∙ take-append-drop http_chunk_size (drop (i * http_chunk_size) body))
  ]

  length-chunk : (i : ℕ) → length (http_chunk response body total i).payload ≤ http_chunk_size
  unfolding http_chunk
  length-chunk i = elim (Bool-cases (ltb (length body) (i * http_chunk_size + http_chunk_size))) [
    | inl last ↦ rw last (
        short (length body - i * http_chunk_size) (drop (i * http_chunk_size) body) http_chunk_size
          (ground arith))
    | inr more ↦ rw more (
        short (i * http_chunk_size + http_chunk_size - i * http_chunk_size)
          (drop (i * http_chunk_size) body) http_chunk_size (omega arith))
  ]

  chunks_lem :
      (rounds i : ℕ)
      → i + rounds ≡ total
      → length body ≤ total * http_chunk_size
      → IsSequence response.session_id total i (http_chunks response body total rounds i)
        × (payloads (http_chunks response body total rounds i) ≡ drop (i * http_chunk_size) body)
  unfolding http_chunks http_chunk
  chunks_lem zero i e room =
      (omega (arith, e), sym (drop-eq-nil (i * http_chunk_size) body (omega arith)))
  chunks_lem (suc rounds) i e room =
      let rest = chunks_lem rounds (i + 1) (omega arith) room in
      (
        (refl, refl, refl, length-chunk i, rest.0),
        ap (λ l. (http_chunk response body total i).payload ++ l) rest.1 ∙ chunk-drop i,
      )

-- The loop over a whole body, with a total that has room for it.
whole_body :
    (response : Message) (body : Bytes) (total : ℕ)
    → length body ≤ total * http_chunk_size
    → IsSequence response.session_id
        (length (http_chunks response body total total 0))
        0
        (http_chunks response body total total 0)
      × (payloads (http_chunks response body total total 0) ≡ body)
whole_body response body total room =
    let (numbered, carried) = chunks_lem response body total total 0 (omega arith) room in
    (
      subst
          (λ (n : ℕ). IsSequence response.session_id n 0 (http_chunks response body total total 0))
          (sym (length-chunks response body total total 0)) numbered,
      carried,
    )

-- The messages of a response are numbered from 0 of their total, carry the body together, and none
-- carries more than 20480 bytes of it; there are no more of them than that takes, and at least one:
-- a body of at most 20480 bytes, an empty one included, takes one message.
pub http_response-IsSequence :
    (id : String) (status_code : ℕ) (status : String) (headers body : Bytes)
    → IsSequence id
        (length (http_response id status_code status headers body))
        0
        (http_response id status_code status headers body)
      × (payloads (http_response id status_code status headers body) ≡ body)
      × IsLeast (length body) (length (http_response id status_code status headers body))
unfolding http_response response_head
http_response-IsSequence id status_code status headers body =
    let total = http_total_chunks (length body) in
    let head = response_head id status_code status headers in
    let (numbered, carried) = whole_body head body total (total_lem (length body)).0 in
    (
      numbered,
      carried,
      subst (IsLeast (length body)) (sym (length-chunks head body total total 0))
          (total_lem (length body)),
    )
