-- ===== src/Files/Tests.antt =====
-- Witnesses for the file transfers: a file of five bytes in chunks of two.
use clianywhere_daemon.Prelude.{
  ◌*◌, ◌≡◌, refl, ◌⊎◌, ◌<◌, ◌≤◌, ℕ, true, false, none, some, List, [], ◌∷◌, ◌++◌, drop, replicate,
  arith, length, length-append, All, ◌∙◌, nat_key,
}
use clianywhere_daemon.Prelude.Assoc.{lookup}
use clianywhere_daemon.Protocol.{Bytes, Message, empty_message, DirEntry}
use clianywhere_daemon.Secure.{Crypto}
use clianywhere_daemon.Secure.Laws.{Laws}
use clianywhere_daemon.Daemon.{Daemon, new_daemon}
use clianywhere_daemon.Daemon.Outgoing.{wrap_outgoing_binary, frame_limit_for_channel}
use clianywhere_daemon.Files.{
  FileSendTask, FileTransferManager, chunk_size_for, total_chunks_for, new_manager,
}
use clianywhere_daemon.Files.Sender.{Turn, Event, ack, cancels, turn, start, run}
use clianywhere_daemon.Files.Sender.Delivery.{data_frames, controls, EndsWith}
use clianywhere_daemon.Files.Sender.Assembly.{assemble, assemble-run}
use clianywhere_daemon.Files.Sender.Passing.{IsGood}
use clianywhere_daemon.Files.Sender.Ending.{serve, serve_ends}
use clianywhere_daemon.Files.Sender.Success.{serve_delivers}
use clianywhere_daemon.Files.Sizes.{run-Fits, total_chunks_for_least}
use clianywhere_daemon.Files.Manager.{Os, handle_delete, cancel}
use clianywhere_daemon.Files.Manager.Closing.{
  FileEvent, stage, request, acks, file_run, IsApart, IsOnce,
}
use clianywhere_daemon.Files.Manager.Panics.{file_run_safe, delete-cancel_panics}
use clianywhere_daemon.Files.Listing.{send_dir_list}
use clianywhere_daemon.Files.Listing.Listed.{
  all_listed, Numbered, IsSmall, send_dir_list-IsComplete,
}

abbrev plain : Crypto Bytes
plain = record {
  new_gcm = λ key. some key;
  seal = λ g n p. replicate 16 0 ++ p;
  open_sealed = λ g n c. some (drop 16 c);
  encode64 = λ b. b;
  decode64 = λ b. some b;
  marshal = λ m. some m.payload;
  unmarshal = λ b. some (record empty_message { kind = "input"; payload = b });
}

plain-Laws : Laws plain
plain-Laws = record {
  opens = λ g n p. refl;
  tagged = λ g n p. length-append (replicate 16 0) p ∙ omega arith;
  decodes = λ b. refl;
}

abbrev task : FileSendTask
task = record {
  id = 7;
  file_name = [];
  file_path = [];
  file_size = 5;
  total_chunks = 3;
  sent_chunks = 0;
  acked = 0;
  notified = false;
  once = false;
  closed = false;
}

abbrev content : Bytes
content = 10 ∷ 20 ∷ 30 ∷ 40 ∷ 50 ∷ []

abbrev good : Turn
good = record { accepted = true; read_fails = false; times_out = false }

good-IsGood : IsGood good
good-IsGood = record { accepts = refl; reads = refl }

abbrev four : List Turn
four = good ∷ good ∷ good ∷ good ∷ []

abbrev events : List Event
events = turn good ∷ turn good ∷ ack 1 ∷ cancels ∷ turn good ∷ []

abbrev sum_of : Bytes → Bytes
sum_of b = length b ∷ []

assemble-run_example :
    (sent tail : Bytes) × (assemble 7 0
        (data_frames (run sum_of 2 true events (start (some content) task)).1)
      ≡ some sent)
    × (sent ++ tail ≡ content)
    × ((controls (run sum_of 2 true events (start (some content) task)).1 ≡ [])
        ⊎ ((sent ≡ content)
            × EndsWith 2 sum_of 7 3 content
                (run sum_of 2 true events (start (some content) task)).1
                content))
assemble-run_example =
    assemble-run true 2 sum_of events task content (omega arith) (omega arith) (omega arith)
      (omega arith)

serve_delivers_example :
    (assemble 7 0 (data_frames (run sum_of 2 true (serve 0 four) (start (some content) task)).1)
      ≡ some content)
    × EndsWith 2 sum_of 7 3 content
        (run sum_of 2 true (serve 0 four) (start (some content) task)).1
        content
serve_delivers_example =
    serve_delivers true 2 sum_of four task content (omega arith) (omega arith) refl refl
      (omega arith) (omega arith) (omega arith)
      (good-IsGood, (good-IsGood, (good-IsGood, (good-IsGood, tt))))

serve_ends_example :
    ((run sum_of 2 true (serve 0 four) (start (some content) task)).0.running ≡ false)
    × (All IsGood four
        → false ≡ false
        → 0 < length (controls (run sum_of 2 true (serve 0 four) (start (some content) task)).1))
serve_ends_example = serve_ends sum_of 2 true four task content refl (omega arith) (omega arith)

abbrev daemon : Daemon Bytes Bytes
daemon = new_daemon "key" true

run-Fits_example :
    All
      (λ (f : Bytes).
        length (wrap_outgoing_binary plain f daemon).1 ≤ frame_limit_for_channel daemon)
      (data_frames
        (run sum_of (chunk_size_for 2 daemon) true (serve 0 four) (start (some content) task)).1)
run-Fits_example = run-Fits plain 2 daemon true sum_of (serve 0 four) task content plain-Laws

total_chunks_for_least_example :
    (5 ≤ total_chunks_for 5 2 * 2)
    × (0 < total_chunks_for 5 2)
    × ((n : ℕ) → 0 < n → 5 ≤ n * 2 → total_chunks_for 5 2 ≤ n)
total_chunks_for_least_example = total_chunks_for_least 5 2 (omega arith)

abbrev os : Os
os = record {
  abs = λ p. some p;
  stat = λ p. some (5, false);
  opens = λ p. true;
  creates = λ p. true;
  copied = λ p. true;
  time = 50 ∷ [];
}

-- "a.b"
abbrev file : Bytes
file = 97 ∷ 46 ∷ 98 ∷ []

abbrev requests : List FileEvent
requests = stage os file ∷ request os 1 ∷ acks 2 1 ∷ []

file_run_safe_example :
    (m' : FileTransferManager) × (file_run 2 daemon requests (new_manager file) ≡ some m')
    × IsApart m'
    × IsOnce m'
file_run_safe_example =
    file_run_safe 2 daemon requests file (omega arith) (tt, λ m e. (tt, λ m e. (tt, λ m e. tt)))

abbrev sending : FileTransferManager
sending = record {
  tasks = (0, task) ∷ [];
  allocated = 1;
  active = (7, 0) ∷ [];
  staged = [];
  next_id = 7;
  staged_dir = file;
}

delete-cancel_panics_example :
    (m' : FileTransferManager) × ((handle_delete 7 sending).0 ≡ some m')
    × (cancel 7 m' ≡ none)
    × ((handle_delete 7 m').0 ≡ none)
unfolding lookup
delete-cancel_panics_example = delete-cancel_panics sending 7 0 task refl refl refl refl

abbrev entry : DirEntry
entry = record { name = file; size = 5; mod_time = 1 }

send_dir_list-IsComplete_example :
    (ms : List Message) × (send_dir_list (λ e. e.name) file (entry ∷ []) (entry ∷ entry ∷ [])
      ≡ some ms)
    × Numbered (length ms) 0 ms
    × (all_listed ms ≡ entry ∷ entry ∷ entry ∷ [])
    × All (IsSmall (λ e. e.name)) ms
send_dir_list-IsComplete_example =
    send_dir_list-IsComplete (λ e. e.name) file (entry ∷ []) (entry ∷ entry ∷ [])
