-- ===== src/Rtc/Routes.antt =====
-- cmd/claw/webrtc.go with cmd/claw/secure_handshake.go: encryption does not change the route.
use clianywhere_daemon.Prelude.{Option-cases, inl, inr, ◌≡◌, ◌≢◌, [], ◌∷◌, refl, arith}
use clianywhere_daemon.Protocol.{Bytes, opcode_secure_binary}
use clianywhere_daemon.Secure.{usable, SecureChannel, wrap_binary, first_byte, secure_frame, Crypto}
use clianywhere_daemon.Daemon.Outgoing.{active_channel, wrap_outgoing_binary}
use clianywhere_daemon.Wire.{put_uint64}
use clianywhere_daemon.Daemon.{Daemon}
use clianywhere_daemon.Rtc.{frame_routes_to_file}

module _ {Aead : Type 0} (k : Crypto Aead) where
  route_secure_frame :
      (c : SecureChannel Aead) (g : Aead) (frame : Bytes)
      → first_byte frame ≢ opcode_secure_binary
      → frame_routes_to_file (secure_frame k c g frame) ≡ frame_routes_to_file frame
  unfolding frame_routes_to_file secure_frame put_uint64
  route_secure_frame c g [] h = ground arith
  route_secure_frame c g (op ∷ rest) h = ground arith

  -- A frame that is not itself an envelope is sent on the same DataChannel whether wrapOutgoingBinary
  -- encrypts it or passes it through: frameRoutesToFile says the same of what leaves as of the frame.
  pub route-wrap_outgoing_binary :
      {Server : Type 0} (d : Daemon Aead Server) (frame : Bytes)
      → first_byte frame ≢ opcode_secure_binary
      → (wrap_outgoing_binary k frame d).1 ≢ []
      → frame_routes_to_file (wrap_outgoing_binary k frame d).1 ≡ frame_routes_to_file frame
  unfolding wrap_outgoing_binary wrap_binary
  route-wrap_outgoing_binary d frame plain leaves = elim (Option-cases (active_channel d.secure)) [
    | inl e ↦ rw (e, wrap_outgoing_binary) refl
    | inr (c, e) ↦ elim (Option-cases (usable c.active c.gcm_send)) [
      | inl u ↦ absurd (leaves (rw (e, wrap_outgoing_binary) (rw (u, wrap_binary) refl)))
      | inr (g, u) ↦
          rw (e, wrap_outgoing_binary) (rw (u, wrap_binary) (route_secure_frame c g frame plain))
    ]
  ]
