-- ===== src/Relay/Tests.antt =====
-- Witness for the write loop: a text arrives while the loop waits in its second select.
use clianywhere_daemon.Prelude.{◌⊎◌, ◌++◌, ◌≡◌, ◌≤◌, refl, true, false, List, [], ◌∷◌}
use clianywhere_daemon.Relay.{
  relay_close, ping, enqueues, send_raw, write_msg, write_binary, write_text, write_select,
  WsTurnRelay, second_select, pick_text, pick_binary, pick_close,
}
use clianywhere_daemon.Relay.Order.{texts_dequeued, all_taken, texts_written}
use clianywhere_daemon.Relay.Runs.{
  relay_step, RelayEvent, writes, sends_raw, pings, relay_run, lead, lead-relay_run,
}
use clianywhere_daemon.Relay.Losses.{texts_written-relay_run}

abbrev relay : WsTurnRelay
relay = record {
  conn = true;
  connected = true;
  send_ch = (1 ∷ []) ∷ [];
  binary_ch = (2 ∷ []) ∷ (3 ∷ []) ∷ [];
  closed = false;
  missed_pongs = 0;
  loop = second_select;
  pinging = true;
}

abbrev turns : List RelayEvent
turns =
    writes pick_binary false
    ∷ sends_raw false (4 ∷ [])
    ∷ writes pick_binary false
    ∷ pings false
    ∷ writes pick_text false
    ∷ writes pick_text true
    ∷ writes pick_close false
    ∷ []

one_binary : lead (relay_run turns relay).1 ≡ 1
unfolding relay_run relay_step write_select write_text write_binary write_msg send_raw enqueues ping
    relay_close
one_binary = refl

lead-relay_run_example : lead (relay_run turns relay).1 ≤ 1
lead-relay_run_example = lead-relay_run turns relay (λ e. cc)

texts_written-relay_run_example :
    (texts_dequeued (relay_run turns relay).1 ++ (relay_run turns relay).0.send_ch
      ≡ relay.send_ch ++ all_taken turns relay)
    × ((texts_written (relay_run turns relay).1 ≡ texts_dequeued (relay_run turns relay).1)
        ⊎ ((relay_run turns relay).0.closed ≡ true))
texts_written-relay_run_example = texts_written-relay_run turns relay refl
