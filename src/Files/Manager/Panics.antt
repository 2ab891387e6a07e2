-- ===== src/Files/Manager/Panics.antt =====
-- cmd/claw/filetransfer.go: no sequence of the manager's handlers closes a channel twice.
use clianywhere_daemon.Prelude.{
  beq_refl, ℕ, ◌+◌, ◌^◌, ◌<◌, true, false, Option, none, some, List, [], ◌∷◌, ◌≡◌, refl, ◌∙◌, arith,
  nat_key, length,
}
use clianywhere_daemon.Prelude.Assoc.{Map, lookup, insert, delete, lookup-insert}
use clianywhere_daemon.Protocol.{Bytes}
use clianywhere_daemon.Daemon.{Daemon}
use clianywhere_daemon.Files.{
  StagedFileEntry, FileSendTask, FileTransferManager, close_cancel, close_once, new_manager,
}
use clianywhere_daemon.Files.Manager.{
  stage_file, find_staged, remove_staged, handle_request, handle_delete, cancel, end_send,
  change_task,
}
use clianywhere_daemon.Files.Manager.Closing.{
  FileEvent, stage, request, deletes, cancels, ended, acks, cancels_all, file_step, file_run,
  IsApart, IsOnce,
}
use clianywhere_daemon.Files.Manager.Apart.{stage_file-Keeps}
use clianywhere_daemon.Files.Manager.Runs.{end_send-Kept, request-Kept}
use clianywhere_daemon.Files.Manager.Safety.{
  Goes, cancel-Goes, ack-Goes, cancel_all-Goes, delete-Goes,
}

module _ {Aead Server : Type 0} (configured : ℕ) (d : Daemon Aead Server) where
  -- A delete names a file of the list that the app was sent.
  abbrev pub NamesStaged : FileEvent → FileTransferManager → Type 0
  NamesStaged (deletes id) m = (x : StagedFileEntry) × (find_staged id m.staged ≡ some x)
  NamesStaged (stage os src) m = Unit
  NamesStaged (request os id) m = Unit
  NamesStaged (cancels id) m = Unit
  NamesStaged (ended id) m = Unit
  NamesStaged (acks id received) m = Unit
  NamesStaged cancels_all m = Unit

  abbrev pub AllNameStaged : List FileEvent → FileTransferManager → Type 0
  AllNameStaged [] m = Unit
  AllNameStaged (e ∷ es) m =
      NamesStaged e m
      × ((m' : FileTransferManager) → file_step configured d e m ≡ some m' → AllNameStaged es m')

  step-Goes :
      (e : FileEvent) (m : FileTransferManager) (apart : IsApart m) (once : IsOnce m)
      → m.next_id + 1 < 2 ^ 32
      → NamesStaged e m
      → Goes m apart once (file_step configured d e m)
  unfolding file_step
  step-Goes (stage os src) m apart once room n =
      ((stage_file os src m).0, refl, stage_file-Keeps m apart room once os src)
  step-Goes (request os id) m apart once room n = (
    (handle_request configured d os id m).0,
    refl,
    request-Kept m apart once room configured d os id,
  )
  step-Goes (deletes id) m apart once room (x, found) =
      let (e, k) = delete-Goes m apart once id x found in
      (record m { staged = remove_staged id m.staged }, e, k)
  step-Goes (cancels id) m apart once room n = cancel-Goes m apart once id
  step-Goes (ended id) m apart once room n = (end_send id m, refl, end_send-Kept m apart once id)
  step-Goes (acks id received) m apart once room n = ack-Goes m apart once id received
  step-Goes cancels_all m apart once room n = cancel_all-Goes m apart once

  run-Goes :
      (es : List FileEvent) (m : FileTransferManager)
      → IsApart m
      → IsOnce m
      → m.next_id + length es < 2 ^ 32
      → AllNameStaged es m
      → (m' : FileTransferManager) × (file_run configured d es m ≡ some m') × IsApart m' × IsOnce m'
  unfolding file_run
  run-Goes [] m apart once room n = (m, refl, apart, once)
  run-Goes (e ∷ es) m apart once room n =
      let (m', ran, k) = step-Goes e m apart once (omega arith) n.0 in
      let (m'', ran', apart', once') = run-Goes es m' k.0 k.1 (omega (arith, k.2)) (n.1 m' ran) in
      (m'', rw (ran, file_run) ran', apart', once')

  -- From the empty manager, in any order of staging, requests, acknowledgements, cancellations, ends
  -- of transfers and deletions of staged files, fewer than 2^32 in all, no handler panics; after
  -- it, no id stands for both a staged file and a transfer, and each cancel channel is closed
  -- exactly when its cancelOnce has run.
  pub file_run_safe :
      (es : List FileEvent) (dir : Bytes)
      → length es < 2 ^ 32
      → AllNameStaged es (new_manager dir)
      → (m' : FileTransferManager) × (file_run configured d es (new_manager dir) ≡ some m')
        × IsApart m'
        × IsOnce m'
  unfolding new_manager lookup
  file_run_safe es dir few n =
      run-Goes es (new_manager dir) (record { active_old = λ k i e. cc; staged_apart = tt })
        (λ i t e. cc) (omega arith) n

module _ (f : FileSendTask → Option FileSendTask) (place : ℕ) (m : FileTransferManager)
    (t : FileSendTask) (task : lookup place m.tasks ≡ some t) where
  change_task-none : f t ≡ none → change_task f place m ≡ none
  unfolding change_task
  change_task-none e = rw (task, change_task) (rw (e, change_task) refl)

  change_task-some :
      (t' : FileSendTask)
      → f t ≡ some t'
      → change_task f place m ≡ some (record m { tasks = insert place t' m.tasks })
  unfolding change_task
  change_task-some t' e = rw (task, change_task) (rw (e, change_task) refl)

lookup-insert_self :
    (place : ℕ) (t : FileSendTask) (tasks : Map ℕ FileSendTask)
    → lookup place (insert place t tasks) ≡ some t
lookup-insert_self place t tasks = lookup-insert place place t tasks ∙ rw (beq_refl place) refl

module _ (m : FileTransferManager) (id place : ℕ) (t : FileSendTask)
    (active : lookup id m.active ≡ some place) (task : lookup place m.tasks ≡ some t)
    (live : t.closed ≡ false) (fresh : t.once ≡ false) where
  abbrev closed : FileSendTask
  closed = record t { closed = true }

  abbrev deleted : FileTransferManager
  deleted = record m { staged = remove_staged id m.staged; tasks = insert place closed m.tasks }

  deletes_once : (handle_delete id m).0 ≡ some deleted
  unfolding handle_delete close_cancel
  deletes_once =
      rw (active, handle_delete)
        (change_task-some close_cancel place (record m { staged = remove_staged id m.staged }) t
          task closed (ground arith))

  cancel_panics : cancel id deleted ≡ none
  unfolding cancel close_once close_cancel
  cancel_panics =
      rw (active, cancel)
        (change_task-none close_once place (record deleted { active = delete id m.active }) closed
          (lookup-insert_self place closed m.tasks) (ground arith))

  delete_panics : (handle_delete id deleted).0 ≡ none
  unfolding handle_delete close_cancel
  delete_panics =
      rw (active, handle_delete)
        (change_task-none close_cancel place
          (record deleted { staged = remove_staged id deleted.staged }) closed
          (lookup-insert_self place closed m.tasks) refl)

-- A file_delete with the id of a running transfer closes its channel outside cancelOnce: the next
-- file_cancel or file_delete of that id panics, and the daemon with it.
pub delete-cancel_panics :
    (m : FileTransferManager) (id place : ℕ) (t : FileSendTask)
    → lookup id m.active ≡ some place
    → lookup place m.tasks ≡ some t
    → t.closed ≡ false
    → t.once ≡ false
    → (m' : FileTransferManager) × ((handle_delete id m).0 ≡ some m')
      × (cancel id m' ≡ none)
      × ((handle_delete id m').0 ≡ none)
delete-cancel_panics m id place t active task live fresh = (
  deleted m id place t active task live fresh,
  deletes_once m id place t active task live fresh,
  cancel_panics m id place t active task live fresh,
  delete_panics m id place t active task live fresh,
)
