-- ===== src/Files/Sender/Passing.antt =====
-- cmd/claw/filetransfer.go: what one pass of sendFile does when all that was sent is acknowledged.
use clianywhere_daemon.Prelude.{
  ℕ, ◌+◌, ◌≤◌, ◌<◌, Bool, true, false, not, ◌&&◌, ◌≡◌, refl, ap, ◌⊎◌, inl, inr, arith, length, take,
  if-holds, ltb,
}
use clianywhere_daemon.Protocol.{Bytes}
use clianywhere_daemon.Batcher.{is_empty}
use clianywhere_daemon.Files.{int32_lt, window_full}
use clianywhere_daemon.Files.Sender.{
  Transfer, Turn, Run, ends, cancelled, failed, finish, send_chunk, read_chunk, pass,
}
use clianywhere_daemon.Files.Sender.Delivery.{controls}
use clianywhere_daemon.Files.Sender.Window.{max_chunks}

-- Nothing fails in this pass.
pub record IsGood (t : Turn) : Type 0 where
  pub accepts : t.accepted ≡ true
  pub reads : t.read_fails ≡ false

-- Between two passes: all that was sent is acknowledged.
pub record InStep (i : ℕ) (s : Transfer) : Type 0 where
  pub few : s.task.total_chunks ≤ max_chunks
  pub within : i ≤ s.task.total_chunks
  pub sent : s.chunk_idx ≡ i
  pub level : s.task.acked ≡ i

module _ (checksum : Bytes → Bytes) (size : ℕ) (use_window : Bool) where
  abbrev pub Over : Turn → Transfer → Run → Type 0
  Over t s r =
      (r.0.running ≡ false) × (IsGood t → s.task.closed ≡ false → 0 < length (controls r.1))

  -- It goes on with the next chunk.
  pub record Moved (i : ℕ) (s : Transfer) (r : Run) : Type 0 where
    pub still : r.0.running ≡ true
    pub open_kept : r.0.task.closed ≡ s.task.closed
    pub total_kept : r.0.task.total_chunks ≡ s.task.total_chunks
    pub acked_kept : r.0.task.acked ≡ i
    pub next : r.0.chunk_idx ≡ i + 1
    pub within : i + 1 ≤ s.task.total_chunks

  abbrev pub Passed : ℕ → Turn → Transfer → Run → Type 0
  Passed i t s r = Over t s r ⊎ Moved i s r

  room :
      (i : ℕ) (s : Transfer)
      → InStep i s
      → (use_window && window_full s.task.acked s.chunk_idx) ≡ false
  unfolding window_full int32_lt
  room i s h = ground arith

  finish-Over : (i : ℕ) (t : Turn) (s : Transfer) → Passed i t s (finish checksum t s)
  unfolding finish ends
  finish-Over i t s = inl (refl, λ g o. rw g.accepts (omega arith))

  send_chunk-Passed :
      (i : ℕ) (t : Turn) (p : Bytes) (s : Transfer)
      → InStep i s
      → s.running ≡ true
      → s.chunk_idx < s.task.total_chunks
      → Passed i t s (send_chunk size t p s)
  unfolding send_chunk ends
  send_chunk-Passed i t p s h r more =
      if-holds (Passed i t s) t.accepted
        (λ e. inr (record {
          still = r;
          open_kept = refl;
          total_kept = refl;
          acked_kept = h.level;
          next = ap (λ (n : ℕ). n + 1) h.sent;
          within = omega (arith, h.sent);
        }))
        (λ e. inl (refl, λ g o. cc (g.accepts)))

  pub pass-Passed :
      (i : ℕ) (t : Turn) (s : Transfer)
      → InStep i s
      → s.running ≡ true
      → Passed i t s (pass checksum size use_window t s)
  unfolding pass read_chunk failed cancelled ends
  pass-Passed i t s h r =
      if-holds (Passed i t s) (not (ltb s.chunk_idx s.task.total_chunks)) (λ e. finish-Over i t s)
        (λ more.
          if-holds (Passed i t s) s.task.closed (λ e. inl (refl, λ g o. cc))
            (λ e.
              if-holds (Passed i t s) (use_window && window_full s.task.acked s.chunk_idx)
                (λ full. cc (room i s h))
                (λ w.
                  if-holds (Passed i t s) t.read_fails (λ bad. inl (refl, λ g o. cc (g.reads)))
                    (λ good.
                      if-holds (Passed i t s) (is_empty (take size s.rest))
                        (λ empty. finish-Over i t s)
                        (λ some_read.
                          send_chunk-Passed i t (take size s.rest) s h r (ground arith))))))
