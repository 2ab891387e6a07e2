-- ===== src/Lib.antt =====
-- A verification library for the daemon of CLIAnywhere (cmd/claw): the program that runs shells,
-- and passes their output, files and local web services to one browser app, over a relay (TS) or a
-- peer-to-peer channel, encrypted end to end.
--
-- The parts and how they interact:
--
-- Protocol (cmd/claw/protocol.go): the limits, opcodes and the envelope Message, of which the model
--   keeps the fields that the modelled code sets or reads; `payload` is Data as bytes.
-- Wire: the big-endian numbers of encoding/binary, for nonces and frame headers.
-- Batcher (cmd/claw/output_batcher.go): the daemon's sendOutput hands each write of a shell to Add;
--   tick, FlushSession, FlushAll and SealAt cut segments from the buffers, and sendBatch packs a
--   segment into output messages. Batcher.antt models sendBatch, with its local variables as the
--   record Open; Batcher/Buffers.antt models the buffers and their operations, each of which returns
--   the buffers after it and the messages that it sends.
-- Secure (cmd/claw/securechannel.go): WrapJSON, UnwrapJSON, WrapBinary, UnwrapBinary and Reset on the
--   record SecureChannel; Secure/Kinds.antt holds the tables of message kinds.
-- Ring (cmd/claw/ring_logger.go): the ring of log entries and the channels of its subscribers.
-- Files (cmd/claw/filetransfer.go): Files/Manager.antt has FileTransferManager and its handlers,
--   Files/Sender.antt the loop of sendFile as a machine of turns, and Files/Listing.antt sendDirList.
-- Sessions (cmd/claw/pty.go, cmd/claw/terminal.go): PTYManager with the sessions that it shares with
--   their read loops; list_sessions is ListSessions.
-- Proxy (cmd/claw/proxy_manager.go): Proxy/Conns.antt has one table of connections, Proxy.antt the
--   handlers and read loops on both, and Proxy/Runs.antt sequences of them.
-- Rtc (cmd/claw/webrtc.go): the DataChannels of a WebRTCConn as a record, its operations, and
--   Rtc/Order.antt sequences of them; send_bytes is SendBytes, to which the daemon's sendBytes hands
--   its frames on P2P.
-- Relay (cmd/claw/wsrelay.go): the record WsTurnRelay with the two queues, the senders, and writeLoop
--   as a step for each of its selects; each message that it takes shows whether it was written.
-- SecurityCode (cmd/claw/security_code.go): the file with the six digits.
-- Update (internal/checkupdate/checkupdate.go): versions, their order, and assets.
-- Text: what the code uses of the package strings.
-- Prelude: the names that the others share, slices and maps.
--
-- How the code is modelled. State is passed on explicitly; a Go map is an association list, a slice a
-- list, a nil pointer `none`. Integers are natural numbers; a 64-bit sequence number wraps where the
-- code adds to it. An operation that holds its mutexes from its first test to its return is one step,
-- so an interleaving is a list of operations. Times are arguments, in nanoseconds.
--
-- The daemon core (Daemon, for cmd/claw/daemon.go and cmd/claw/secure_handshake.go): the record Daemon
-- is the state between two messages, and a Step is a handler: the state after it, and the effects, in
-- order (messages that leave, calls of the PTY, file and proxy managers, an exit). Daemon/Outgoing.antt
-- has wrapOutgoingJSON, sendJSON and their kin, Daemon/Handshake.antt handlePakeStart,
-- handleSecConfirm and resetSecure, Daemon/History.antt the chunks of a history
-- (Daemon/Losses.antt: one that is too long),
-- Daemon/Handlers.antt the other handlers and sendOutput, and Daemon/Dispatch.antt handleMessage and
-- handleBinary. The handshake calls cmd/claw/spake2.go as the parameter Spake; what the managers
-- return is in Env. sendOutput feeds Batcher, and sendJSON flushes it first.
--
-- Parameters: crypto/aes with cipher.AEAD, encoding/base64 and encoding/json are the record Crypto,
-- or the function `marshal_len`; where a theorem relies on them, their documented behaviour is a
-- hypothesis (Secure/Laws.antt, JsonBound).
--
-- Fuel: the loop over one write in sendBatch takes `2 * length + 1` rounds, since each round but the
-- first of a message shortens the write, and the halving loop takes its start value; that neither runs
-- out is part of the result about sendBatch. historyPlainChunks takes the length of the data for
-- both of its loops, and the result about it shows that this is enough.
--
-- The loop of ReplaceAll in Write takes a round for each byte, the digits of a default name one for
-- each unit of the number; a transfer's machine takes its turns as a list, and that enough of them
-- end it is a result.
--
-- Not modelled: the login to the relay, the negotiation of P2P, the local web server and user
-- interface, the configuration files, the arithmetic of the key agreement, and the terminal
-- emulator internal/xterm, a copy of another project. What the network, the file system and
-- startPty answer is an argument of the operation that asks.
pub mod Prelude
pub mod Protocol
pub mod Wire
pub mod Batcher
pub mod Secure
pub mod Ring
pub mod Daemon
pub mod Files
pub mod Text
pub mod Update
pub mod SecurityCode
pub mod Sessions
pub mod Proxy
pub mod Rtc
pub mod Relay
