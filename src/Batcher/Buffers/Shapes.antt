-- ===== src/Batcher/Buffers/Shapes.antt =====
-- Changes of the map of buffers in cmd/claw/output_batcher.go, and of one buffer, keep them well formed.
use clianywhere_daemon.Prelude.{
  string_key, ℕ, suc, ◌+◌, ◌^◌, ◌<◌, false, none, some, List, [], ◌∷◌, ◌++◌, ◌≡◌, refl, inl, inr,
  String, length, Bool-cases, beq_true, beq_ne_sym, arith, ◌==◌, subst, ◌-◌,
}
use mathlib.Core.Option.{some-injective}
use clianywhere_daemon.Prelude.Assoc.{lookup, insert, delete, lookup-insert, lookup-delete}
use clianywhere_daemon.Protocol.{Bytes}
use clianywhere_daemon.Batcher.{OutEntry, is_empty}
use clianywhere_daemon.Batcher.Packing.Segment.{Follows, last_seq}
use clianywhere_daemon.Batcher.Buffers.{
  OutBuf, Bufs, is_nil, raw_length, append_entry, fresh_buf, seq_after,
}
use clianywhere_daemon.Batcher.Buffers.Stream.{IsBuf, IsBufs}

lookup-delete_absent :
    (k sid : String) (bufs : Bufs) → lookup k bufs ≡ none → lookup k (delete sid bufs) ≡ none
lookup-delete_absent k sid bufs h =
    rw (lookup-delete sid k bufs) (elim (Bool-cases (sid == k)) [ inl e ↦ rw e | inr e ↦ rw e h ])

pub delete-IsBufs : (sid : String) (bufs : Bufs) → IsBufs bufs → IsBufs (delete sid bufs)
unfolding delete
delete-IsBufs sid [] v = tt
delete-IsBufs sid ((id, buf) ∷ bufs) v = elim (Bool-cases (id == sid)) [
  | inl e ↦ rw e (delete-IsBufs sid bufs v.2)
  | inr e ↦ rw e (v.0, lookup-delete_absent id sid bufs v.1, delete-IsBufs sid bufs v.2)
]

lookup-insert_absent :
    (k sid : String) (b : OutBuf) (bufs : Bufs)
    → (sid == k) ≡ false
    → lookup k bufs ≡ none
    → lookup k (insert sid b bufs) ≡ none
lookup-insert_absent k sid b bufs ne h = rw (lookup-insert sid k b bufs) (rw ne h)

pub insert-IsBufs :
    (sid : String) (b : OutBuf) (bufs : Bufs) → IsBuf b → IsBufs bufs → IsBufs (insert sid b bufs)
unfolding insert
insert-IsBufs sid b [] h v = (h, unfold lookup in refl, tt)
insert-IsBufs sid b ((id, buf) ∷ bufs) h v = elim (Bool-cases (id == sid)) [
  | inl e ↦ rw e (h, rw (beq_true id sid e) at v.1, v.2)
  | inr e ↦ rw e (
    v.0,
    lookup-insert_absent id sid b bufs (beq_ne_sym id sid e) v.1,
    insert-IsBufs sid b bufs h v.2,
  )
]

pub lookup-IsBuf :
    (sid : String) (bufs : Bufs) (buf : OutBuf)
    → IsBufs bufs
    → lookup sid bufs ≡ some buf
    → IsBuf buf
unfolding lookup
lookup-IsBuf sid [] buf v h = cc
lookup-IsBuf sid ((id, b) ∷ bufs) buf v h = elim (Bool-cases (id == sid)) [
  | inl e ↦ subst IsBuf (some-injective b buf (rw e at h)) v.0
  | inr e ↦ lookup-IsBuf sid bufs buf v.2 (rw e at h)
]

Follows-append :
    (c : ℕ) (es : List OutEntry) (e : OutEntry)
    → Follows c es
    → e.seq ≡ suc (last_seq c es)
    → is_empty e.bytes ≡ false
    → Follows c (es ++ e ∷ [])
Follows-append c [] e f h ne = (h, ne, tt)
Follows-append c (x ∷ es) e f h ne = (f.0, f.1, Follows-append x.seq es e f.2 h ne)

last_seq-append : (c : ℕ) (es : List OutEntry) (e : OutEntry) → last_seq c (es ++ e ∷ []) ≡ e.seq
last_seq-append c [] e = refl
last_seq-append c (x ∷ es) e = last_seq-append x.seq es e

raw_length-append :
    (es : List OutEntry) (e : OutEntry) → raw_length (es ++ e ∷ []) ≡ raw_length es + length e.bytes
raw_length-append [] e = omega arith
raw_length-append (x ∷ es) e = omega (arith, raw_length-append es e)

is_nil-append : (es : List OutEntry) (e : OutEntry) → is_nil (es ++ e ∷ []) ≡ false
is_nil-append [] e = refl
is_nil-append (x ∷ es) e = refl

module _ (d : Bytes) (seq : ℕ) (ne : is_empty d ≡ false) (pos : 0 < seq)
    (small : seq < 2 ^ 64) where
  pub fresh-IsBuf : (now : ℕ) → IsBuf (append_entry (fresh_buf now) d seq)
  fresh-IsBuf now = record {
    start = seq - 1;
    segment = (omega arith, ne, tt);
    latest = refl;
    raw = omega arith;
    bound = small;
    filled = refl;
  }

  pub append-IsBuf :
      (buf : OutBuf) → IsBuf buf → seq ≡ seq_after buf.last_seq → IsBuf (append_entry buf d seq)
  append-IsBuf buf v h = record {
    start = v.start;
    segment = Follows-append v.start buf.entries _ v.segment (omega (arith, v.latest, v.bound)) ne;
    latest = last_seq-append v.start buf.entries _;
    raw = omega (arith, v.raw, raw_length-append buf.entries (record { seq = seq; bytes = d }));
    bound = small;
    filled = is_nil-append buf.entries _;
  }
