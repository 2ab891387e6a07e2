-- ===== src/Ring.antt =====
-- cmd/claw/ring_logger.go: the ring of log entries and the channels of its subscribers.
--
-- The time is an argument, and a formatted message is text. `n` of GetRecent is not negative.
pub mod Table
pub mod Contents
pub mod History
pub mod Fanout
mod Tests
use clianywhere_daemon.Prelude.{
  ℕ, zero, suc, ◌+◌, ◌-◌, ◌%◌, Bool, true, false, List, [], ◌∷◌, ◌++◌, String, if◌then◌else◌, ltb,
  nat_beq, length, get_or, set, drop, replicate, Option, none, some,
}
use clianywhere_daemon.Ring.Table.{tabulate}

pub record LogEntry : Type 0 where
  pub timestamp : ℕ
  pub level : String
  pub message : String

-- `chan LogEntry`, with its buffer, oldest first.
pub record Channel : Type 0 where
  pub id : ℕ
  pub buffer : List LogEntry
  pub closed : Bool

pub record RingLogger : Type 0 where
  pub entries : List LogEntry
  pub capacity : ℕ
  pub write_idx : ℕ
  pub count : ℕ
  pub subscribers : List Channel

-- The zero value that `make` fills the slice with.
abbrev pub zero_entry : LogEntry
zero_entry = record { timestamp = 0; level = ""; message = "" }

abbrev pub channel_size : ℕ
channel_size = 256

-- NewRingLogger
pub new_ring_logger : ℕ → RingLogger
new_ring_logger capacity =
    let cap : ℕ = if nat_beq capacity 0 then 1000 else capacity in
    record {
      entries = replicate cap zero_entry;
      capacity = cap;
      write_idx = 0;
      count = 0;
      subscribers = [];
    }

-- The part of append under `mu`.
pub store : LogEntry → RingLogger → RingLogger
store entry l = record l {
  entries = set l.entries l.write_idx entry;
  write_idx = (l.write_idx + 1) % l.capacity;
  count = if ltb l.count l.capacity then l.count + 1 else l.count;
}

-- `select { case ch <- entry: default: … }`: a full channel loses its oldest entry.
pub offer : LogEntry → Channel → Channel
offer entry ch =
    if ltb (length ch.buffer) channel_size
    then record ch { buffer = ch.buffer ++ entry ∷ [] }
    else let rest = drop 1 ch.buffer in
      if ltb (length rest) channel_size
      then record ch { buffer = rest ++ entry ∷ [] }
      else record ch { buffer = rest }

pub offer_all : LogEntry → List Channel → List Channel
offer_all entry [] = []
offer_all entry (ch ∷ chs) = offer entry ch ∷ offer_all entry chs

-- append
pub append : LogEntry → RingLogger → RingLogger
append entry l =
    let l' = store entry l in record l' { subscribers = offer_all entry l'.subscribers }

-- `readIdx`, where the oldest entry is.
abbrev pub read_idx : RingLogger → ℕ
read_idx l = (l.write_idx + l.capacity - l.count) % l.capacity

-- l.entries[(readIdx+i)%l.capacity]
abbrev pub entry_at : RingLogger → ℕ → LogEntry
entry_at l i = get_or l.entries ((read_idx l + i) % l.capacity) zero_entry

-- GetRecent
pub get_recent : ℕ → RingLogger → List LogEntry
get_recent n l = let m : ℕ = if ltb l.count n then l.count else n in tabulate (entry_at l) 0 m

-- Subscribe, with the identity of the channel that `make` returns.
pub subscribe : ℕ → RingLogger → RingLogger × Channel
subscribe id l =
    let ch : Channel = record { id = id; buffer = []; closed = false } in
    (record l { subscribers = l.subscribers ++ ch ∷ [] }, ch)

pub remove : ℕ → List Channel → List Channel
remove id [] = []
remove id (ch ∷ chs) = if nat_beq ch.id id then chs else ch ∷ remove id chs

pub find : ℕ → List Channel → Option Channel
find id [] = none
find id (ch ∷ chs) = if nat_beq ch.id id then some (record ch { closed = true }) else find id chs

-- Unsubscribe: the logger, and the channel that it closed.
pub unsubscribe : ℕ → RingLogger → RingLogger × Option Channel
unsubscribe id l = (record l { subscribers = remove id l.subscribers }, find id l.subscribers)
