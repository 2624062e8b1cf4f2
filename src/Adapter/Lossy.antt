-- ===== src/Adapter/Lossy.antt =====
-- LossyFdAdapter of libsponge/tcp_helpers/lossy_fd_adapter.hh, around any adapter. Each number that
-- the random generator gives is an argument.
use cs144_me.Prelude.{
  ℕ, ◌%◌, ◌^◌, Bool, true, false, not, ◌&&◌, Option, none, List, [], ltb, ◌==◌, if◌then◌else◌,
}
use cs144_me.Prelude.Result.{Result, ok, ◌>>=◌}
use cs144_me.Header.Tcp.{TcpSegment}
use cs144_me.Adapter.{FdAdapterConfig, FdAdapter}

-- The generator is asked only if the rate is not 0. Its number is cut to a uint16_t.
unfoldable pub should_drop : FdAdapterConfig → Bool → ℕ → Bool
should_drop cfg uplink random =
    let loss : ℕ = if uplink then cfg.loss_rate_up else cfg.loss_rate_dn in
    not (loss == 0) && ltb (random % 2 ^ 16) loss

module _ {A P : Type 0} (adapter : FdAdapter A P) where
  -- The segment is lost once the adapter has read it.
  unfoldable pub read : A → ℕ → P → Result (Option TcpSegment × List P × A)
  read a random p = do
    (ret, packets, a') ← adapter.read a p
    ok (if should_drop (adapter.config a') false random then none else ret, packets, a')

  unfoldable pub write : A → ℕ → TcpSegment → Result (TcpSegment × List P × A)
  write a random seg =
      if should_drop (adapter.config a) true random then ok (seg, [], a) else adapter.write a seg

  unfoldable pub set_listening : A → Bool → A
  set_listening a l = adapter.set_listening a l

  unfoldable pub config : A → FdAdapterConfig
  config a = adapter.config a

  -- Assigning to config_mut().
  unfoldable pub set_config : A → FdAdapterConfig → A
  set_config a cfg = adapter.set_config a cfg

  unfoldable pub tick : A → ℕ → List P × A
  tick a ms = adapter.tick a ms
