-- ===== src/Files/Manager/Apart.antt =====
-- cmd/claw/filetransfer.go: what staging a file keeps of the ids and the tasks.
use clianywhere_daemon.Prelude.{
  nat_beq_iff, subst, ℕ, ◌+◌, ◌^◌, ◌≤◌, ◌<◌, true, false, none, some, List, [], ◌∷◌, ◌++◌, ◌≡◌,
  refl, sym, ap, ◌∙◌, arith, nat_key, nat_beq, All, All-map, All-append, Option-cases, Bool-cases,
  inl, inr, ◌⊎◌, if-holds,
}
use clianywhere_daemon.Prelude.Assoc.{Map, lookup}
use clianywhere_daemon.Protocol.{Bytes}
use clianywhere_daemon.Files.{StagedFileEntry, FileTransferManager}
use clianywhere_daemon.Files.Manager.{
  staged_entry, Os, stage_file, copy_staged, allocate, find_staged, remove_staged,
}
use clianywhere_daemon.Files.Manager.Closing.{IsApart, IsOnce}

abbrev pub Apart : Map ℕ ℕ → ℕ → StagedFileEntry → Type 0
Apart active next e = (e.info.id ≤ next) × (lookup e.info.id active ≡ none)

-- An id that has not been allocated is in no map.
fresh-none :
    (m : FileTransferManager) → IsApart m → (k : ℕ) → m.next_id < k → lookup k m.active ≡ none
fresh-none m h k new = elim (Option-cases (lookup k m.active)) [
  | inl e ↦ e
  | inr (i, e) ↦ absurd (omega (arith, h.active_old k i e))
]

pub find_staged-All :
    (P : StagedFileEntry → Type 0) (id : ℕ) (es : List StagedFileEntry) (e : StagedFileEntry)
    → All P es
    → find_staged id es ≡ some e
    → P e × (e.info.id ≡ id)
unfolding find_staged
find_staged-All P id [] e h q = cc
find_staged-All P id (x ∷ es) e h q = elim (Bool-cases (nat_beq x.info.id id)) [
  | inl t ↦
      let same : x ≡ e = cc (rw t at q) in
      (subst P same h.0, ap (λ (y : StagedFileEntry). y.info.id) (sym same) ∙ (nat_beq_iff _ _).0 t)
  | inr f ↦ find_staged-All P id es e h.1 (rw f at q)
]

pub remove_staged-All :
    (P : StagedFileEntry → Type 0) (id : ℕ) (es : List StagedFileEntry)
    → All P es
    → All P (remove_staged id es)
unfolding remove_staged
remove_staged-All P id [] h = tt
remove_staged-All P id (x ∷ es) h =
    if-holds (All P) (nat_beq x.info.id id) (λ e. h.1) (λ e. (h.0, remove_staged-All P id es h.1))

staged_entry-id :
    (os : Os) (path : Bytes) (size : ℕ) (m : FileTransferManager)
    → (staged_entry os path size m).info.id ≡ m.next_id
unfolding staged_entry
staged_entry-id os path size m = refl

copy_staged-cases :
    (os : Os) (path : Bytes) (size : ℕ) (m : FileTransferManager)
    → ((copy_staged os path size m).0 ≡ m)
      ⊎ ((copy_staged os path size m).0
          ≡ record m { staged = m.staged ++ staged_entry os path size m ∷ [] })
unfolding copy_staged
copy_staged-cases os path size m = ground arith

module _ (m : FileTransferManager) (apart : IsApart m) (room : m.next_id + 1 < 2 ^ 32) where
  allocate-next : (allocate m).next_id ≡ m.next_id + 1
  unfolding allocate
  allocate-next = omega arith

  pub allocate-IsApart : IsApart (allocate m)
  unfolding allocate
  allocate-IsApart = record {
    active_old = λ k i e. omega (arith, apart.active_old k i e);
    staged_apart = All-map _ _ (λ e h. (omega (arith, h.0), h.1)) m.staged apart.staged_apart;
  }

  fresh : lookup (allocate m).next_id m.active ≡ none
  fresh = fresh-none m apart (allocate m).next_id (omega (arith, allocate-next))

  -- What each handler keeps: the ids apart, and each channel closed at most once.
  abbrev pub Keeps : FileTransferManager → Type 0
  Keeps m' = IsApart m' × IsOnce m' × (m'.next_id ≤ m.next_id + 1)

  module _ (once : IsOnce m) where
    pub allocate-Keeps : Keeps (allocate m)
    unfolding allocate
    allocate-Keeps = (allocate-IsApart, once, omega arith)

    pub unchanged : Keeps m
    unchanged = (apart, once, omega arith)

    staged_IsApart :
        (es : List StagedFileEntry)
        → All (Apart m.active (allocate m).next_id) es
        → IsApart (record (allocate m) { staged = es })
    unfolding allocate
    staged_IsApart es h = record {
      active_old = λ k i e. omega (arith, apart.active_old k i e);
      staged_apart = h;
    }

    added :
        (x : StagedFileEntry)
        → x.info.id ≡ (allocate m).next_id
        → Keeps (record (allocate m) { staged = (allocate m).staged ++ x ∷ [] })
    unfolding allocate
    added x e = (
      staged_IsApart (m.staged ++ x ∷ []) (
          All-append (Apart m.active (allocate m).next_id) m.staged (x ∷ [])
            allocate-IsApart.staged_apart
            ((omega (arith, e), ap (λ (k : ℕ). lookup k m.active) e ∙ fresh), tt)),
      once,
      omega arith,
    )

    copy_staged-Keeps :
        (os : Os) (path : Bytes) (size : ℕ) → Keeps (copy_staged os path size (allocate m)).0
    copy_staged-Keeps os path size = elim (copy_staged-cases os path size (allocate m)) [
      | inl e ↦ subst Keeps (sym e) allocate-Keeps
      | inr e ↦ subst Keeps (sym e) (
          added (staged_entry os path size (allocate m))
            (staged_entry-id os path size (allocate m)))
    ]

    pub stage_file-Keeps : (os : Os) (src : Bytes) → Keeps (stage_file os src m).0
    unfolding stage_file
    stage_file-Keeps os src = elim (Option-cases (os.abs src)) [
      | inl e ↦ rw (e, stage_file) unchanged
      | inr (path, e) ↦
          rw (e, stage_file)
            (elim (Option-cases (os.stat path)) [
              | inl e' ↦ rw (e', stage_file) unchanged
              | inr ((size, true), e') ↦ rw (e', stage_file) unchanged
              | inr ((size, false), e') ↦ rw (e', stage_file) (copy_staged-Keeps os path size)
            ])
    ]
