-- ===== src/Daemon/Framing.antt =====
-- cmd/claw/daemon.go: how much wrapOutgoingBinary adds to a frame.
use clianywhere_daemon.Prelude.{ℕ, ◌+◌, ◌≤◌, arith, Option-cases, inl, inr, length, none, some}
use clianywhere_daemon.Protocol.{Bytes, secure_binary_overhead}
use clianywhere_daemon.Secure.{Crypto}
use clianywhere_daemon.Secure.Laws.{Laws}
use clianywhere_daemon.Secure.Wrapping.{length-wrap_binary}
use clianywhere_daemon.Daemon.{Daemon}
use clianywhere_daemon.Daemon.Outgoing.{active_channel, wrap_outgoing_binary}

module _ {Aead Server : Type 0} where
  -- SecureBinaryOverhead where secureActive holds
  unfoldable pub secure_overhead : Daemon Aead Server → ℕ
  secure_overhead d = elim (active_channel d.secure) [ none ↦ 0 | some c ↦ secure_binary_overhead ]

  pub secure_overhead-le : (d : Daemon Aead Server) → secure_overhead d ≤ secure_binary_overhead
  unfolding secure_overhead
  secure_overhead-le d = elim (Option-cases (active_channel d.secure)) [
    | inl e ↦ rw (e, secure_overhead) (omega arith)
    | inr (c, e) ↦ rw (e, secure_overhead) (omega arith)
  ]

  pub length-wrap_outgoing_binary :
      (k : Crypto Aead)
      → Laws k
      → (d : Daemon Aead Server) (frame : Bytes)
      → length (wrap_outgoing_binary k frame d).1 ≤ length frame + secure_overhead d
  unfolding wrap_outgoing_binary secure_overhead
  length-wrap_outgoing_binary k laws d frame = elim (Option-cases (active_channel d.secure)) [
    | inl e ↦ rw (e, wrap_outgoing_binary, secure_overhead) (omega arith)
    | inr (c, e) ↦ rw (e, wrap_outgoing_binary, secure_overhead) (length-wrap_binary k laws c frame)
  ]
