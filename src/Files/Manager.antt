-- ===== src/Files/Manager.antt =====
-- cmd/claw/filetransfer.go: the handlers of the file transfer manager.
--
-- `none` in place of a state is a panic, which ends the daemon. `StageError` names the error
-- returns of StageFile. What the operating system answers is in `Os`.
use clianywhere_daemon.Prelude.{
  ℕ, ◌+◌, ◌%◌, ◌^◌, Bool, true, false, not, Option, none, some, List, [], ◌∷◌, ◌++◌, map, String,
  nat_key, nat_beq, if◌then◌else◌,
}
use clianywhere_daemon.Prelude.Assoc.{Map, lookup, insert, delete}
use clianywhere_daemon.Protocol.{Bytes, Message, empty_message, StagedFile}
use clianywhere_daemon.Daemon.{Daemon}
use clianywhere_daemon.Files.{
  StagedFileEntry, FileSendTask, FileTransferManager, record_ack, close_cancel, close_once,
  chunk_size_for, total_chunks_for,
}
use clianywhere_daemon.Files.Names.{base, join, staged_name}
pub mod Closing
pub mod Apart
pub mod Runs
pub mod Safety
pub mod Panics

pub data StageError : Type 0 where
  bad_path missing is_directory open_failed create_failed copy_failed : StageError

-- What the operations do to the outside.
pub data FileEffect : Type 0 where
  -- sendJSON
  tells : Message → FileEffect
  -- io.Copy of one file to another, and os.Remove
  copies : Bytes → Bytes → FileEffect
  removes : Bytes → FileEffect
  -- `go ftm.sendFile(task, chunkSize)`, with the task's place
  sends : ℕ → ℕ → FileEffect

pub record Os : Type 0 where
  -- filepath.Abs
  pub abs : Bytes → Option Bytes
  -- os.Stat: the size, and whether it is a directory
  pub stat : Bytes → Option (ℕ × Bool)
  -- whether os.Open, os.Create and io.Copy succeed
  pub opens : Bytes → Bool
  pub creates : Bytes → Bool
  pub copied : Bytes → Bool
  -- time.Now() in the format 20060102150405
  pub time : Bytes

-- `atomic.AddUint32(&ftm.nextID, 1)`
unfoldable pub allocate : FileTransferManager → FileTransferManager
allocate m = record m { next_id = (m.next_id + 1) % 2 ^ 32 }

unfoldable pub infos : List StagedFileEntry → List StagedFile
infos [] = []
infos (e ∷ es) = e.info ∷ infos es

-- sendFileList
unfoldable pub send_file_list : FileTransferManager → FileEffect
send_file_list m = tells (record empty_message { kind = "file_list"; files = infos m.staged })

-- The entry that StageFile appends.
unfoldable pub staged_entry : Os → Bytes → ℕ → FileTransferManager → StagedFileEntry
staged_entry os path size m =
    let name = staged_name (base path) os.time in
    record {
      info = record {
        id = m.next_id;
        file_name = name;
        original_name = base path;
        size = size;
        time = os.time;
      };
      file_path = join m.staged_dir name;
    }

-- The part of StageFile that runs once the id is allocated.
unfoldable pub copy_staged :
    Os → Bytes → ℕ → FileTransferManager → FileTransferManager × List FileEffect × Option StageError
copy_staged os path size m =
    let entry = staged_entry os path size m in
    let target = entry.file_path in
    let m' = record m { staged = m.staged ++ entry ∷ [] } in
    if not (os.opens path)
    then (m, [], some open_failed)
    else if not (os.creates target)
    then (m, [], some create_failed)
    else if not (os.copied path)
    then (m, removes target ∷ [], some copy_failed)
    else (m', copies path target ∷ send_file_list m' ∷ [], none)

-- StageFile, which is StartSend too
unfoldable pub stage_file :
    Os → Bytes → FileTransferManager → FileTransferManager × List FileEffect × Option StageError
stage_file os src m = elim (os.abs src) [
  | none ↦ (m, [], some bad_path)
  | some path ↦ elim (os.stat path) [
    | none ↦ (m, [], some missing)
    | some (size, is_dir) ↦
        if is_dir then (m, [], some is_directory) else copy_staged os path size (allocate m)
  ]
]

unfoldable pub find_staged : ℕ → List StagedFileEntry → Option StagedFileEntry
find_staged id [] = none
find_staged id (e ∷ es) = if nat_beq e.info.id id then some e else find_staged id es

-- `append(ftm.staged[:idx], ftm.staged[idx+1:]...)` at the first entry with the id
unfoldable pub remove_staged : ℕ → List StagedFileEntry → List StagedFileEntry
remove_staged id [] = []
remove_staged id (e ∷ es) =
    let rest = remove_staged id es in if nat_beq e.info.id id then es else e ∷ rest

-- The task that startSendFromStaged makes.
unfoldable pub new_task : ℕ → Bytes → ℕ → ℕ → FileSendTask
new_task id path size total = record {
  id = id;
  file_name = base path;
  file_path = path;
  file_size = size;
  total_chunks = total;
  sent_chunks = 0;
  acked = 0;
  notified = false;
  once = false;
  closed = false;
}

-- The message file_send_begin of a task
unfoldable pub begin_message : FileSendTask → Message
begin_message t = record empty_message {
  kind = "file_send_begin";
  file_id = t.id;
  file_name = t.file_name;
  file_size = t.file_size;
  total_chunks = t.total_chunks;
}

module _ {Aead Server : Type 0} (configured : ℕ) (d : Daemon Aead Server) (os : Os) where
  -- startSendFromStaged; the flag tells whether it has started.
  unfoldable pub start_send_from_staged :
      Bytes → FileTransferManager → FileTransferManager × List FileEffect × Bool
  start_send_from_staged path m = elim (os.stat path) [
    | none ↦ (m, [], false)
    | some (size, is_dir) ↦
        let chunk_size = chunk_size_for configured d in
        let m' = allocate m in
        let task = new_task m'.next_id path size (total_chunks_for size chunk_size) in
        let place = m'.allocated in
        (
          record m' {
            tasks = insert place task m'.tasks;
            allocated = m'.allocated + 1;
            active = insert task.id place m'.active;
          },
          tells (begin_message task) ∷ sends place chunk_size ∷ [],
          true,
        )
  ]

  -- HandleRequest
  unfoldable pub handle_request :
      ℕ → FileTransferManager → FileTransferManager × List FileEffect × Bool
  handle_request id m = elim (find_staged id m.staged) [
    | none ↦ (m, [], false)
    | some e ↦ start_send_from_staged e.file_path m
  ]

-- A change of the task at a place; `none` is a panic.
unfoldable pub change_task :
    (FileSendTask → Option FileSendTask) → ℕ → FileTransferManager → Option FileTransferManager
change_task f place m = elim (lookup place m.tasks) [
  | none ↦ some m
  | some t ↦ elim (f t) [
    | none ↦ none
    | some t' ↦ some (record m { tasks = insert place t' m.tasks })
  ]
]

-- HandleDelete
unfoldable pub handle_delete :
    ℕ → FileTransferManager → Option FileTransferManager × List FileEffect
handle_delete id m =
    let m' = record m { staged = remove_staged id m.staged } in
    let es : List FileEffect = elim (find_staged id m.staged) [
      | none ↦ []
      | some e ↦ removes e.file_path ∷ []
    ] in
    (
      elim (lookup id m.active) [ none ↦ some m' | some place ↦ change_task close_cancel place m' ],
      es,
    )

-- HandleAck
unfoldable pub handle_ack : ℕ → ℕ → FileTransferManager → Option FileTransferManager
handle_ack id received m = elim (lookup id m.active) [
  | none ↦ some m
  | some place ↦ change_task (λ t. some (record_ack received t)) place m
]

-- Cancel
unfoldable pub cancel : ℕ → FileTransferManager → Option FileTransferManager
cancel id m = elim (lookup id m.active) [
  | none ↦ some m
  | some place ↦ change_task close_once place (record m { active = delete id m.active })
]

-- The loop of CancelAll
unfoldable pub close_each : List (ℕ × ℕ) → FileTransferManager → Option FileTransferManager
close_each [] m = some m
close_each ((id, place) ∷ rest) m = elim (change_task close_once place m) [
  | none ↦ none
  | some m' ↦ close_each rest m'
]

-- CancelAll
unfoldable pub cancel_all : FileTransferManager → Option FileTransferManager
cancel_all m = close_each m.active (record m { active = [] })

-- What sendFile's deferred function does.
unfoldable pub end_send : ℕ → FileTransferManager → FileTransferManager
end_send id m = record m { active = delete id m.active }
