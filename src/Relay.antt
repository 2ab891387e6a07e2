-- ===== src/Relay.antt =====
-- cmd/claw/wsrelay.go: the two queues of the relay connection, its write loop and its pings.
--
-- A select with several ready cases picks any: the pick is an argument. An operation that parks on a
-- full channel returns `blocked` and changes nothing.
pub mod Runs
pub mod Order
pub mod Losses
mod Tests
use clianywhere_daemon.Prelude.{
  ℕ, ◌+◌, Bool, true, false, not, ◌&&◌, ◌||◌, List, [], ◌∷◌, ◌++◌, length, ltb, leb, if◌then◌else◌,
}
use clianywhere_daemon.Protocol.{Bytes}

-- Where writeLoop stands.
pub data Loop : Type 0 where
  first_select second_select returned : Loop

pub record WsTurnRelay : Type 0 where
  pub conn : Bool
  pub connected : Bool
  pub send_ch : List Bytes
  pub binary_ch : List Bytes
  pub closed : Bool
  pub missed_pongs : ℕ
  pub loop : Loop
  pub pinging : Bool

-- The buffers that NewWSTurnRelay makes
abbrev pub relay_capacity : ℕ
relay_capacity = 16

pub data Sent : Type 0 where
  accepted refused blocked : Sent

-- A message that writeMsg takes, and whether it is written: not without a connection, nor where
-- WriteMessage fails.
pub data Written : Type 0 where
  text binary : Bool → Bytes → Written

unfoldable pub relay_close : WsTurnRelay → WsTurnRelay
relay_close w = record w { closed = true }

-- The select of a sender: whether the message goes into a queue.
unfoldable pub enqueues : Bool → List Bytes → Bool → Sent
enqueues closed queue picks_close =
    let room = ltb (length queue) relay_capacity in
    if closed && (picks_close || not room) then refused else if room then accepted else blocked

-- SendRaw and SendJSON, with the text
unfoldable pub send_raw : Bool → Bytes → WsTurnRelay → WsTurnRelay × Sent
send_raw picks_close b w =
    if not (w.conn && w.connected)
    then (w, refused)
    else elim (enqueues w.closed w.send_ch picks_close) [
      | accepted ↦ (record w { send_ch = w.send_ch ++ b ∷ [] }, accepted)
      | refused ↦ (w, refused)
      | blocked ↦ (w, blocked)
    ]

-- SendBinaryBlocking
unfoldable pub send_binary : Bool → Bytes → WsTurnRelay → WsTurnRelay × Sent
send_binary picks_close b w =
    if not w.connected then (w, refused) else elim (enqueues w.closed w.binary_ch picks_close) [
      | accepted ↦ (record w { binary_ch = w.binary_ch ++ b ∷ [] }, accepted)
      | refused ↦ (w, refused)
      | blocked ↦ (w, blocked)
    ]

pub data Pick : Type 0 where
  pick_close pick_text pick_binary : Pick

-- writeMsg, and whether the message is written; a write that fails closes the connection.
unfoldable pub write_msg : Bool → WsTurnRelay → WsTurnRelay × Bool
write_msg fails w =
    if not w.conn then (w, false) else if fails then (relay_close w, false) else (w, true)

-- One select of writeLoop; a pick that is not ready is no step, and the first select falls through
-- when nothing is ready.
unfoldable pub write_text : Loop → Bool → List Bytes → WsTurnRelay → WsTurnRelay × List Written
write_text other fails [] w = (record w { loop = other }, [])
write_text other fails (b ∷ rest) w =
    let (w', done) = write_msg fails (record w { send_ch = rest; loop = first_select }) in
    (w', text done b ∷ [])

unfoldable pub write_binary : Bool → List Bytes → WsTurnRelay → WsTurnRelay × List Written
write_binary fails [] w = (w, [])
write_binary fails (b ∷ rest) w =
    let (w', done) = write_msg fails (record w { binary_ch = rest; loop = first_select }) in
    (w', binary done b ∷ [])

unfoldable pub write_select : Loop → Pick → Bool → WsTurnRelay → WsTurnRelay × List Written
write_select returned pick fails w = (w, [])
write_select first_select pick_close fails w =
    (if w.closed then record w { loop = returned } else w, [])
write_select first_select pick_text fails w =
    write_text (if w.closed then first_select else second_select) fails w.send_ch w
write_select first_select pick_binary fails w = (w, [])
write_select second_select pick_close fails w =
    (if w.closed then record w { loop = returned } else w, [])
write_select second_select pick_text fails w = write_text second_select fails w.send_ch w
write_select second_select pick_binary fails w = write_binary fails w.binary_ch w

-- One tick of pingLoop
unfoldable pub ping : Bool → WsTurnRelay → WsTurnRelay
ping picks_close w =
    if not w.pinging
    then w
    else if w.closed && picks_close
    then record w { pinging = false }
    else if leb 3 w.missed_pongs
    then record w { closed = true; pinging = false }
    else if not (w.conn && w.connected)
    then record w { pinging = false }
    else record w { missed_pongs = w.missed_pongs + 1 }

-- The pong handler
unfoldable pub pong : WsTurnRelay → WsTurnRelay
pong w = record w { missed_pongs = 0 }
