-- ===== src/Files/Manager/Closing.antt =====
-- cmd/claw/filetransfer.go: the cancel channel of a task is closed at most once, and a staged file and
-- a transfer never share an id.
use clianywhere_daemon.Prelude.{
  ℕ, ◌≤◌, true, Option, none, some, List, [], ◌∷◌, ◌≡◌, refl, ◌∙◌, arith, nat_key, All,
  Option-cases, Bool-cases, inl, inr,
}
use clianywhere_daemon.Prelude.Assoc.{lookup, insert, lookup-insert}
use clianywhere_daemon.Protocol.{Bytes}
use clianywhere_daemon.Daemon.{Daemon}
use clianywhere_daemon.Files.{
  StagedFileEntry, FileSendTask, FileTransferManager, record_ack, close_cancel, close_once,
}
use clianywhere_daemon.Files.Manager.{
  close_each, Os, stage_file, handle_request, handle_delete, handle_ack, cancel, cancel_all,
  end_send, change_task,
}

-- What the app, the local user and the senders ask of the manager.
pub data FileEvent : Type 0 where
  stage : Os → Bytes → FileEvent
  request : Os → ℕ → FileEvent
  deletes cancels ended : ℕ → FileEvent
  acks : ℕ → ℕ → FileEvent
  cancels_all : FileEvent

module _ {Aead Server : Type 0} (configured : ℕ) (d : Daemon Aead Server) where
  -- `none` is a panic.
  unfoldable pub file_step : FileEvent → FileTransferManager → Option FileTransferManager
  file_step (stage os src) m = some (stage_file os src m).0
  file_step (request os id) m = some (handle_request configured d os id m).0
  file_step (deletes id) m = (handle_delete id m).0
  file_step (cancels id) m = cancel id m
  file_step (ended id) m = some (end_send id m)
  file_step (acks id n) m = handle_ack id n m
  file_step cancels_all m = cancel_all m

  unfoldable pub file_run : List FileEvent → FileTransferManager → Option FileTransferManager
  file_run [] m = some m
  file_run (e ∷ es) m = elim (file_step e m) [ none ↦ none | some m' ↦ file_run es m' ]

-- Every id in use has been allocated, and no id stands for a staged file and for a transfer.
pub record IsApart (m : FileTransferManager) : Type 0 where
  pub active_old : (k i : ℕ) → lookup k m.active ≡ some i → k ≤ m.next_id
  pub staged_apart :
      All
        (λ (e : StagedFileEntry). (e.info.id ≤ m.next_id) × (lookup e.info.id m.active ≡ none))
        m.staged

-- Each task's cancel channel is closed exactly when its cancelOnce has run.
abbrev pub IsOnce : FileTransferManager → Type 0
IsOnce m = (i : ℕ) (t : FileSendTask) → lookup i m.tasks ≡ some t → t.closed ≡ t.once

-- A change of a task that never panics, and closes the channel only with its cancelOnce.
abbrev pub Safe : (FileSendTask → Option FileSendTask) → Type 0
Safe f =
    (t : FileSendTask)
    → t.closed ≡ t.once
    → (t' : FileSendTask) × (f t ≡ some t') × (t'.closed ≡ t'.once)

pub close_once-Safe : Safe close_once
unfolding close_once close_cancel
close_once-Safe t h = elim (Bool-cases t.once) [
  | inl e ↦ (t, ground arith, h)
  | inr e ↦ (record t { once = true; closed = true }, ground arith, refl)
]

pub record_ack-Safe : (n : ℕ) → Safe (λ t. some (record_ack n t))
unfolding record_ack
record_ack-Safe n t h = (record_ack n t, refl, ground arith)

-- What a change of a task leaves alone.
pub record Touches (m m' : FileTransferManager) : Type 0 where
  pub once_kept : IsOnce m'
  pub active_kept : m'.active ≡ m.active
  pub staged_kept : m'.staged ≡ m.staged
  pub next_kept : m'.next_id ≡ m.next_id

pub IsOnce-insert :
    (m : FileTransferManager) (place : ℕ) (t : FileSendTask)
    → IsOnce m
    → t.closed ≡ t.once
    → (i : ℕ) (u : FileSendTask) → lookup i (insert place t m.tasks) ≡ some u
    → u.closed ≡ u.once
IsOnce-insert m place t h o i u e = ground (arith, lookup-insert place i t m.tasks, h i u, e)

pub change_task-Safe :
    (f : FileSendTask → Option FileSendTask) (place : ℕ) (m : FileTransferManager)
    → Safe f
    → IsOnce m
    → (m' : FileTransferManager) × (change_task f place m ≡ some m') × Touches m m'
unfolding change_task
change_task-Safe f place m safe h = elim (Option-cases (lookup place m.tasks)) [
  | inl e ↦ (
    m,
    rw (e, change_task) refl,
    record { once_kept = h; active_kept = refl; staged_kept = refl; next_kept = refl },
  )
  | inr (t, e) ↦
      let (t', ok, o) = safe t (h place t e) in
      (
        record m { tasks = insert place t' m.tasks },
        rw (e, change_task) (rw (ok, change_task) refl),
        record {
          once_kept = IsOnce-insert m place t' h o;
          active_kept = refl;
          staged_kept = refl;
          next_kept = refl;
        },
      )
]

pub close_each-Safe :
    (active : List (ℕ × ℕ)) (m : FileTransferManager)
    → IsOnce m
    → (m' : FileTransferManager) × (close_each active m ≡ some m') × Touches m m'
unfolding close_each
close_each-Safe [] m h =
    (m, refl, record { once_kept = h; active_kept = refl; staged_kept = refl; next_kept = refl })
close_each-Safe ((id, place) ∷ rest) m h =
    let (m', e, t) = change_task-Safe close_once place m close_once-Safe h in
    let (m'', e', t') = close_each-Safe rest m' t.once_kept in
    (
      m'',
      rw (e, close_each) e',
      record {
        once_kept = t'.once_kept;
        active_kept = t'.active_kept ∙ t.active_kept;
        staged_kept = t'.staged_kept ∙ t.staged_kept;
        next_kept = t'.next_kept ∙ t.next_kept;
      },
    )
