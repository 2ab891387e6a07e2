-- ===== src/Files/Manager/Safety.antt =====
-- cmd/claw/filetransfer.go: cancelling, acknowledging and deleting close no channel twice.
use clianywhere_daemon.Prelude.{
  subst, ℕ, Option, none, some, [], ◌≡◌, refl, sym, ap, ◌∙◌, arith, nat_key, All, All-map,
  Option-cases, inl, inr,
}
use clianywhere_daemon.Prelude.Assoc.{Map, lookup, delete}
use clianywhere_daemon.Files.{
  StagedFileEntry, FileSendTask, FileTransferManager, record_ack, close_once,
}
use clianywhere_daemon.Files.Manager.{
  find_staged, remove_staged, handle_delete, handle_ack, cancel, cancel_all, change_task,
}
use clianywhere_daemon.Files.Manager.Closing.{
  IsApart, IsOnce, Touches, Safe, close_once-Safe, record_ack-Safe, change_task-Safe,
  close_each-Safe,
}
use clianywhere_daemon.Files.Manager.Apart.{Apart, find_staged-All, remove_staged-All}
use clianywhere_daemon.Files.Manager.Runs.{Kept, fewer-Kept, delete-sub, delete-Apart}

touched-IsApart : (m m' : FileTransferManager) → Touches m m' → IsApart m → IsApart m'
touched-IsApart m m' t h = record {
  active_old =
      λ k i e. omega (arith, h.active_old k i (ap (lookup k) (sym t.active_kept) ∙ e), t.next_kept);
  staged_apart =
      subst (λ (n : ℕ). All (Apart m'.active n) m'.staged) (sym t.next_kept)
        (subst (λ (a : Map ℕ ℕ). All (Apart a m.next_id) m'.staged) (sym t.active_kept)
          (subst (All (Apart m.active m.next_id)) (sym t.staged_kept) h.staged_apart));
}

module _ (m : FileTransferManager) (apart : IsApart m) (once : IsOnce m) where
  -- A handler that does not panic, and keeps the ids apart and the channels closed at most once.
  abbrev pub Goes : Option FileTransferManager → Type 0
  Goes o = (m' : FileTransferManager) × (o ≡ some m') × Kept m apart once m'

  pub same-Kept : Kept m apart once m
  same-Kept = (apart, once, omega arith)

  touched-Goes :
      (m0 : FileTransferManager)
      → Kept m apart once m0
      → (f : FileSendTask → Option FileSendTask) → Safe f
      → (place : ℕ) → Goes (change_task f place m0)
  touched-Goes m0 k f safe place =
      let (m', e, t) = change_task-Safe f place m0 safe k.1 in
      (m', e, (touched-IsApart m0 m' t k.0, t.once_kept, omega (arith, t.next_kept, k.2)))

  closing-Kept : (id : ℕ) → Kept m apart once (record m { active = delete id m.active })
  closing-Kept id =
      fewer-Kept m apart once (record m { active = delete id m.active }) once refl
        (delete-sub m apart once id) (delete-Apart m apart once id)

  pub cancel-Goes : (id : ℕ) → Goes (cancel id m)
  unfolding cancel
  cancel-Goes id = elim (Option-cases (lookup id m.active)) [
    | inl e ↦ (m, rw (e, cancel) refl, same-Kept)
    | inr (place, e) ↦
        rw (e, cancel)
          (touched-Goes (record m { active = delete id m.active }) (closing-Kept id) close_once
            close_once-Safe place)
  ]

  pub ack-Goes : (id received : ℕ) → Goes (handle_ack id received m)
  unfolding handle_ack
  ack-Goes id received = elim (Option-cases (lookup id m.active)) [
    | inl e ↦ (m, rw (e, handle_ack) refl, same-Kept)
    | inr (place, e) ↦
        rw (e, handle_ack)
          (touched-Goes m same-Kept (λ t. some (record_ack received t)) (record_ack-Safe received)
            place)
  ]

  cleared-Kept : Kept m apart once (record m { active = [] })
  unfolding lookup
  cleared-Kept =
      fewer-Kept m apart once (record m { active = [] }) once refl (λ k i e. cc)
        (All-map (Apart m.active m.next_id) (Apart [] m.next_id) (λ e h. (h.0, refl)) m.staged
          apart.staged_apart)

  pub cancel_all-Goes : Goes (cancel_all m)
  unfolding cancel_all
  cancel_all-Goes =
      let (m', e, t) = close_each-Safe m.active (record m { active = [] }) once in
      (
        m',
        e,
        (
          touched-IsApart (record m { active = [] }) m' t cleared-Kept.0,
          t.once_kept,
          omega (arith, t.next_kept),
        ),
      )

  -- Deleting a file from the list leaves every transfer as it is.
  pub delete-Goes :
      (id : ℕ) (x : StagedFileEntry)
      → find_staged id m.staged ≡ some x
      → ((handle_delete id m).0 ≡ some (record m { staged = remove_staged id m.staged }))
        × Kept m apart once (record m { staged = remove_staged id m.staged })
  unfolding handle_delete
  delete-Goes id x found =
      let here =
        find_staged-All (Apart m.active m.next_id) id m.staged x apart.staged_apart found in
      let idle : lookup id m.active ≡ none =
        ap (λ (k : ℕ). lookup k m.active) (sym here.1) ∙ here.0.1 in
      (
        rw (idle, handle_delete) refl,
        fewer-Kept m apart once (record m { staged = remove_staged id m.staged }) once refl
            (λ k i e. e)
            (remove_staged-All (Apart m.active m.next_id) id m.staged apart.staged_apart),
      )
