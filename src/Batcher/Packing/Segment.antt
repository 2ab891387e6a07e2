-- ===== src/Batcher/Packing/Segment.antt =====
-- The loop over a segment of consecutive writes.
use clianywhere_daemon.Prelude.{
  ℕ, suc, true, false, Option, none, some, List, [], ◌∷◌, ◌++◌, ◌≡◌, refl, sym, arith, String,
  append-nil,
}
use clianywhere_daemon.Protocol.{Bytes, Message}
use clianywhere_daemon.Batcher.{Open, OutEntry, is_empty, pack_entries, entry_fuel}
use clianywhere_daemon.Batcher.Packing.{Advances, Advances-trans, bytes_of}
use clianywhere_daemon.Batcher.Packing.Rounds.{Packed, pack_entry-Packed}
use clianywhere_daemon.Batcher.Packing.Sizes.{open_weight-le}

-- A segment after write `c`: consecutive writes, none of them empty.
abbrev pub Follows : ℕ → List OutEntry → Type 0
Follows c [] = Unit
Follows c (e ∷ es) = (e.seq ≡ suc c) × (is_empty e.bytes ≡ false) × Follows e.seq es

-- The number of the last write of a segment after `c`.
abbrev pub last_seq : ℕ → List OutEntry → ℕ
last_seq c [] = c
last_seq c (e ∷ es) = last_seq e.seq es

abbrev pub entry_bytes : List OutEntry → Bytes
entry_bytes [] = []
entry_bytes (e ∷ es) = e.bytes ++ entry_bytes es

module _ (marshal_len : Message → Option ℕ) (sid : String) where
  pub record PacksAll (w c : ℕ) (es : List OutEntry) (o : Open) (r : Option Open) : Type 0 where
    pub result : Open
    pub returns : r ≡ some result
    pub advances : Advances marshal_len sid w o c (entry_bytes es) result (last_seq c es)

  prepend :
      {w c : ℕ} {e : OutEntry} {es : List OutEntry} {o : Open} {r : Option Open}
      (ne : is_empty e.bytes ≡ false) (k : Packed marshal_len sid w c e e.bytes true o r)
      → PacksAll w e.seq es k.result (pack_entries marshal_len sid es k.result)
      → PacksAll w c
          (e ∷ es)
          o
          (elim r [ none ↦ none | some o' ↦ pack_entries marshal_len sid es o' ])
  prepend {w} {c} {e} {es} {o} ne k a = rw k.returns (record {
    result = a.result;
    returns = a.returns;
    advances = Advances-trans marshal_len sid (rw (k.written ne) at k.advances) a.advances;
  })

  pub pack_entries-PacksAll :
      (w c : ℕ) (es : List OutEntry) (o : Open)
      → Follows c es
      → PacksAll w c es o (pack_entries marshal_len sid es o)
  unfolding pack_entries
  pack_entries-PacksAll w c [] o h = record {
    result = o;
    returns = refl;
    advances = record { bytes = sym (append-nil (bytes_of o)); packed = λ k. k; covered = λ k. k };
  }
  pack_entries-PacksAll w c (e ∷ es) o h =
      let k =
        pack_entry-Packed marshal_len sid (entry_fuel e.bytes) w c e e.bytes true o
          (omega (arith, h.0)) (omega (arith, open_weight-le o.payload)) in
      prepend h.1 k (pack_entries-PacksAll w e.seq es k.result h.2)
