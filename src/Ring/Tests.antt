-- ===== src/Ring/Tests.antt =====
-- Witnesses for the log ring of cmd/claw/ring_logger.go.
use clianywhere_daemon.Prelude.{true, false, some, ℕ, ◌≡◌, List, [], ◌∷◌, arith}
use clianywhere_daemon.Ring.{
  LogEntry, RingLogger, new_ring_logger, get_recent, append, subscribe, unsubscribe,
}
use clianywhere_daemon.Ring.History.{chosen, get_recent-append_all, append_all, last_n}
use clianywhere_daemon.Ring.Fanout.{IsBounded, append-Each, Each, Offered, unsubscribe-subscribe}

abbrev entry : ℕ → LogEntry
entry t = record { timestamp = t; level = "INFO"; message = "line" }

abbrev four : List LogEntry
four = entry 1 ∷ entry 2 ∷ entry 3 ∷ entry 4 ∷ []

get_recent-append_all_example :
    get_recent 2 (append_all four (new_ring_logger 3)) ≡ entry 2 ∷ entry 3 ∷ []
unfolding last_n chosen
get_recent-append_all_example = get_recent-append_all 2 3 four

abbrev watched : RingLogger
watched = record (new_ring_logger 3) {
  subscribers = record { id = 7; buffer = entry 1 ∷ []; closed = false } ∷ [];
}

append-Each_example :
    Each
      (Offered (entry 2))
      (RingLogger.subscribers watched)
      (RingLogger.subscribers (append (entry 2) watched))
unfolding IsBounded
append-Each_example = append-Each (entry 2) watched (omega arith, tt)

unsubscribe-subscribe_example :
    unsubscribe 8 (subscribe 8 watched).0
    ≡ (watched, some (record (subscribe 8 watched).1 { closed = true }))
unsubscribe-subscribe_example = unsubscribe-subscribe 8 watched (omega arith, tt)
