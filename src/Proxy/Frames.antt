-- ===== src/Proxy/Frames.antt =====
-- cmd/claw/proxy_manager.go: the size of the frames of a tunnel, whose read buffer has the size that
-- proxyPayloadLimitForChannel gives when the tunnel is opened.
use clianywhere_daemon.Prelude.{
  inl, inr, Bool-cases, refl, ◌-◌, Bool-cases, ℕ, ◌+◌, ◌≤◌, ◌<◌, ◌≡◌, true, false, arith, length,
}
use clianywhere_daemon.Protocol.{
  secure_binary_overhead, proxy_frame_header_size, proxy_relay_chunk, Bytes,
}
use clianywhere_daemon.Wire.{put_uint32}
use clianywhere_daemon.Secure.{Crypto}
use clianywhere_daemon.Secure.Laws.{Laws}
use clianywhere_daemon.Daemon.{Daemon}
use clianywhere_daemon.Daemon.Framing.{
  secure_overhead, length-wrap_outgoing_binary, secure_overhead-le,
}
use clianywhere_daemon.Daemon.Outgoing.{
  channel_is_p2p, wrap_outgoing_binary, frame_limit_for_channel, proxy_payload_limit_for_channel,
}
use clianywhere_daemon.Proxy.{proxy_frame}

length-proxy_frame : (id : ℕ) (b : Bytes) → length (proxy_frame id b) ≡ 5 + length b
unfolding proxy_frame put_uint32
length-proxy_frame id b = omega arith

module _ {Aead Server : Type 0} (k : Crypto Aead) (opened now : Daemon Aead Server) (id : ℕ)
    (b : Bytes) where
  sizes :
      (channel_is_p2p now ≡ true → channel_is_p2p opened ≡ true)
      → length b ≤ proxy_payload_limit_for_channel opened
      → 5 + length b + secure_overhead now ≤ frame_limit_for_channel now
  unfolding proxy_payload_limit_for_channel frame_limit_for_channel
  sizes stays h = elim (Bool-cases (channel_is_p2p now)) [
    | inl y ↦ rw y (grind (arith, stays y, secure_overhead-le now, h))
    | inr n ↦ rw n (grind (arith, secure_overhead-le now, h))
  ]

  -- What a tunnel reads into its buffer makes a frame that fits the channel after encryption, as
  -- long as the daemon is not on P2P with a tunnel that was opened while it was not.
  pub proxy_frame_fits :
      Laws k
      → (channel_is_p2p now ≡ true → channel_is_p2p opened ≡ true)
      → length b ≤ proxy_payload_limit_for_channel opened
      → length (wrap_outgoing_binary k (proxy_frame id b) now).1 ≤ frame_limit_for_channel now
  proxy_frame_fits laws stays h = omega (
    arith,
    length-wrap_outgoing_binary k laws now (proxy_frame id b),
    length-proxy_frame id b,
    sizes stays h,
  )

  relay_buffer :
      channel_is_p2p opened ≡ false
      → proxy_payload_limit_for_channel opened
        ≡ proxy_relay_chunk - proxy_frame_header_size - secure_binary_overhead
  unfolding proxy_payload_limit_for_channel
  relay_buffer was = rw was refl

  -- On P2P, with a tunnel that was opened on the relay, a read that fills the buffer makes a frame
  -- over the limit of the channel, even before encryption.
  pub proxy_frame_overflows :
      channel_is_p2p opened ≡ false
      → channel_is_p2p now ≡ true
      → length b ≡ proxy_payload_limit_for_channel opened
      → frame_limit_for_channel now < length (proxy_frame id b)
  unfolding frame_limit_for_channel
  proxy_frame_overflows was is full =
      rw is (omega (arith, length-proxy_frame id b, relay_buffer was, full))
