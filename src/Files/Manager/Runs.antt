-- ===== src/Files/Manager/Runs.antt =====
-- cmd/claw/filetransfer.go: what the start and the end of a transfer keep of the ids and the tasks.
use clianywhere_daemon.Prelude.{
  subst, ℕ, ◌+◌, ◌%◌, ◌^◌, ◌≤◌, ◌<◌, some, ◌≡◌, refl, sym, arith, nat_key, All, All-map,
  Option-cases, inl, inr,
}
use clianywhere_daemon.Prelude.Assoc.{lookup, insert, delete, lookup-insert, lookup-delete}
use clianywhere_daemon.Protocol.{Bytes}
use clianywhere_daemon.Daemon.{Daemon}
use clianywhere_daemon.Files.{FileSendTask, FileTransferManager, total_chunks_for, chunk_size_for}
use clianywhere_daemon.Files.Manager.{
  Os, allocate, find_staged, handle_request, end_send, start_send_from_staged, new_task,
}
use clianywhere_daemon.Files.Manager.Closing.{IsApart, IsOnce, IsOnce-insert}
use clianywhere_daemon.Files.Manager.Apart.{Apart, unchanged}

module _ (m : FileTransferManager) (apart : IsApart m) (once : IsOnce m) where
  abbrev pub Kept : FileTransferManager → Type 0
  Kept m' = IsApart m' × IsOnce m' × (m'.next_id ≤ m.next_id + 1)

  -- Fewer transfers, and staged files that were there before.
  pub fewer-Kept :
      (m' : FileTransferManager)
      → IsOnce m'
      → m'.next_id ≡ m.next_id
      → ((k i : ℕ) → lookup k m'.active ≡ some i → lookup k m.active ≡ some i)
      → All (Apart m'.active m.next_id) m'.staged
      → Kept m'
  fewer-Kept m' o same sub apart' = (
    record {
      active_old = λ k i e. omega (arith, apart.active_old k i (sub k i e), same);
      staged_apart = subst (λ (n : ℕ). All (Apart m'.active n) m'.staged) (sym same) apart';
    },
    o,
    omega (arith, same),
  )

  pub delete-sub :
      (id k i : ℕ) → lookup k (delete id m.active) ≡ some i → lookup k m.active ≡ some i
  delete-sub id k i e = ground (arith, lookup-delete id k m.active, e)

  pub delete-Apart : (id : ℕ) → All (Apart (delete id m.active) m.next_id) m.staged
  delete-Apart id =
      All-map (Apart m.active m.next_id) (Apart (delete id m.active) m.next_id)
        (λ e h. (h.0, ground (arith, lookup-delete id e.info.id m.active, h.1))) m.staged
        apart.staged_apart

  pub end_send-Kept : (id : ℕ) → Kept (end_send id m)
  unfolding end_send
  end_send-Kept id = fewer-Kept (end_send id m) once refl (delete-sub id) (delete-Apart id)

  module _ (room : m.next_id + 1 < 2 ^ 32) where
    started :
        (t : FileSendTask) (place count : ℕ)
        → t.closed ≡ t.once
        → t.id ≡ m.next_id + 1
        → Kept (record m {
          tasks = insert place t m.tasks;
          allocated = count;
          active = insert t.id place m.active;
          next_id = (m.next_id + 1) % 2 ^ 32;
        })
    started t place count same id = (
      record {
        active_old = λ k i e.
            ground (arith, lookup-insert t.id k place m.active, apart.active_old k i, e, id);
        staged_apart =
            All-map (Apart m.active m.next_id) _
              (λ e h. (
                omega (arith, h.0),
                ground (arith, lookup-insert t.id e.info.id place m.active, h, id),
              ))
              m.staged apart.staged_apart;
      },
      IsOnce-insert m place t once same,
      omega arith,
    )

    start_send-Kept :
        {Aead Server : Type 0} (configured : ℕ) (d : Daemon Aead Server) (os : Os) (path : Bytes)
        → Kept (start_send_from_staged configured d os path m).0
    unfolding start_send_from_staged allocate new_task
    start_send-Kept configured d os path = elim (Option-cases (os.stat path)) [
      | inl e ↦ rw (e, start_send_from_staged) (unchanged m apart room once)
      | inr ((size, is_dir), e) ↦
          rw (e, start_send_from_staged)
            (started
              (new_task ((m.next_id + 1) % 2 ^ 32) path size
                (total_chunks_for size (chunk_size_for configured d)))
              m.allocated (m.allocated + 1) refl (omega arith))
    ]

    pub request-Kept :
        {Aead Server : Type 0} (configured : ℕ) (d : Daemon Aead Server) (os : Os) (id : ℕ)
        → Kept (handle_request configured d os id m).0
    unfolding handle_request
    request-Kept configured d os id = elim (Option-cases (find_staged id m.staged)) [
      | inl e ↦ rw (e, handle_request) (unchanged m apart room once)
      | inr (x, e) ↦ rw (e, handle_request) (start_send-Kept configured d os x.file_path)
    ]
