-- ===== src/Adapter.antt =====
-- FdAdapterBase of libsponge/tcp_helpers/fd_adapter.hh with FdAdapterConfig of tcp_config.hh, and what
-- the adapters have in common: each reads segments from packets and writes them to packets.
pub mod OverIp
pub mod Udp
pub mod Tun
pub mod Ethernet
pub mod Lossy
pub mod Filter
pub mod Trip
pub mod Frames
use cs144_me.Prelude.{ℕ, Bool, true, false, ◌&&◌, Option, List, ◌==◌}
use cs144_me.Prelude.Result.{Result}
use cs144_me.Header.Tcp.{TcpHeader, TcpSegment}

-- An Address of IPv4: its ipv4_numeric() and its port().
pub record Address : Type 0 where
  pub ip : ℕ
  pub port : ℕ

unfoldable pub same_address : Address → Address → Bool
same_address a b = a.ip == b.ip && a.port == b.port

pub record FdAdapterConfig : Type 0 where
  pub source : Address
  pub destination : Address
  pub loss_rate_dn : ℕ
  pub loss_rate_up : ℕ

abbrev no_address : Address
no_address = record { ip = 0; port = 0 }

-- The field initialisers.
abbrev pub default_config : FdAdapterConfig
default_config = record {
  source = no_address;
  destination = no_address;
  loss_rate_dn = 0;
  loss_rate_up = 0;
}

pub record FdAdapterBase : Type 0 where
  pub cfg : FdAdapterConfig
  pub listen : Bool

abbrev pub new_base : FdAdapterBase
new_base = record { cfg = default_config; listen = false }

unfoldable pub set_listening : FdAdapterBase → Bool → FdAdapterBase
set_listening a l = record a { listen = l }

-- FdAdapterBase::tick: the base does nothing when time passes.
unfoldable pub tick : FdAdapterBase → ℕ → FdAdapterBase
tick a ms = a

-- `seg.header().sport = ...; seg.header().dport = ...`
abbrev pub set_ports : FdAdapterBase → TcpSegment → TcpSegment
set_ports a seg = record seg {
  header = record (seg.header) { sport = a.cfg.source.port; dport = a.cfg.destination.port };
}

-- What LossyFdAdapter asks of the adapter that it wraps: A is the adapter's state, P the packets that
-- its descriptor gives and takes.
pub record FdAdapter (A P : Type 0) : Type 0 where
  pub config : A → FdAdapterConfig
  pub set_config : A → FdAdapterConfig → A
  pub read : A → P → Result (Option TcpSegment × List P × A)
  pub write : A → TcpSegment → Result (TcpSegment × List P × A)
  pub set_listening : A → Bool → A
  pub tick : A → ℕ → List P × A
