-- ===== src/Daemon/Muting.antt =====
-- push_pause and sendOutput of cmd/claw/daemon.go.
use clianywhere_daemon.Prelude.{
  string_key, ◌==◌, ℕ, ◌≡◌, refl, ap, ◌∙◌, Bool, true, false, ◌||◌, not, some, List, [], ◌∷◌,
  String, beq_refl, if◌then◌else◌,
}
use clianywhere_daemon.Prelude.Assoc.{Map, insert, lookup, lookup-insert}
use clianywhere_daemon.Protocol.{Bytes, Message}
use clianywhere_daemon.Secure.{Crypto}
use clianywhere_daemon.Daemon.{Daemon, Effect, local_output, ◌>>◌, sets}
use clianywhere_daemon.Daemon.Outgoing.{flush}
use clianywhere_daemon.Daemon.Handlers.{handle_push_pause, send_output, holds, is_true}

holds-insert : (m : Map String Bool) (id : String) → holds (insert id true m) id ≡ true
holds-insert m id = ap is_true (lookup-insert id id true m ∙ same id)
  where
    same : (id : String) → (if id == id then some true else lookup id m) ≡ some true
    same id = rw (beq_refl id) refl

module _ {Aead Server : Type 0} (k : Crypto Aead) where
  silent :
      (now : ℕ) (sid : String) (bytes : Bytes) (seq : ℕ) (d : Daemon Aead Server)
      → holds d.muted sid ≡ true
      → (send_output k now sid bytes seq d).1 ≡ local_output sid bytes ∷ []
  unfolding send_output
  silent now sid bytes seq d h =
      ap (◌∷◌ (local_output sid bytes))
        (stops (not (holds d.subscribed sid)) (holds d.muted sid) _ h)
    where
      stops :
          (b c : Bool) (x : Daemon Aead Server × List Effect)
          → c ≡ true
          → (if b || c then (d, []) else x).1 ≡ []
      stops true c x h = refl
      stops false c x h = rw h refl

  -- After push_pause for a session, what the session prints reaches the local clients and nobody
  -- else, whatever the channel and however it is written.
  pub push_pause-silences :
      (msg : Message) (now : ℕ) (bytes : Bytes) (seq : ℕ) (d : Daemon Aead Server)
      → (msg.session_id == "") ≡ false
      → (send_output k now msg.session_id bytes seq (handle_push_pause k msg d).0).1
        ≡ local_output msg.session_id bytes ∷ []
  unfolding handle_push_pause ◌>>◌ sets
  push_pause-silences msg now bytes seq d h =
      silent now msg.session_id bytes seq (handle_push_pause k msg d).0
        (rw h (holds-insert (flush k d).0.muted msg.session_id))
