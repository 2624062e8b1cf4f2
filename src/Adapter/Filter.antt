-- ===== src/Adapter/Filter.antt =====
-- What unwrap_tcp_in_ip of libsponge/tcp_helpers/tcp_over_ip.cc lets through.
use cs144_me.Prelude.{
  ℕ, ◌≡◌, ◌⊎◌, inl, inr, refl, sym, true, false, not, ◌&&◌, Option, none, some, Bool-cases, ◌==◌,
  arith,
}
use mathlib.Core.Path.{subst}
use cs144_me.Header.Tcp.{TcpSegment, empty_segment, parse_segment}
use cs144_me.Header.Ipv4.{Ipv4Header, Ipv4Datagram, proto_tcp, pseudo_cksum}
use cs144_me.Interface.{if_parsed}
use cs144_me.Adapter.{FdAdapterBase}
use cs144_me.Adapter.OverIp.{passes, adopt, accept, unwrap_tcp_in_ip}

-- The segment goes between the two ends of the adapter's connection.
pub record IsBetween (a : FdAdapterBase) (h : Ipv4Header) (seg : TcpSegment) : Type 0 where
  pub to : h.dst ≡ a.cfg.source.ip
  pub from : h.src ≡ a.cfg.destination.ip
  pub proto : h.proto ≡ proto_tcp
  pub dport : seg.header.dport ≡ a.cfg.source.port
  pub sport : seg.header.sport ≡ a.cfg.destination.port

-- An adapter that listens stops at a SYN; another stays as it is.
abbrev pub Turns : FdAdapterBase → TcpSegment → FdAdapterBase → Type 0
Turns a seg a' =
    ((a.listen ≡ false) × (a' ≡ a))
    ⊎ ((a.listen ≡ true)
        × (seg.header.syn ≡ true)
        × (seg.header.rst ≡ false)
        × (a'.listen ≡ false)
        × (a'.cfg.source.port ≡ a.cfg.source.port))

pub data Filtered (a : FdAdapterBase) (d : Ipv4Datagram)
    : Option TcpSegment × FdAdapterBase → Type 0 where
  dropped : Filtered a d (none, a)
  taken :
      (seg : TcpSegment) (a' : FdAdapterBase)
      → if_parsed (parse_segment empty_segment d.payload (pseudo_cksum d.header)) ≡ some seg
      → IsBetween a' d.header seg
      → Turns a seg a'
      → Filtered a d (some seg, a')

module _ (reread : ℕ → ℕ) (a : FdAdapterBase) (d : Ipv4Datagram)
    (src_reread : reread d.header.src ≡ d.header.src)
    (dst_reread : reread d.header.dst ≡ d.header.dst) where
  passed :
      passes a d.header ≡ true
      → (d.header.proto ≡ proto_tcp)
        × (a.listen ≡ false
            → (d.header.dst ≡ a.cfg.source.ip) × (d.header.src ≡ a.cfg.destination.ip))
  passed h = (ground arith, λ l. ground arith)

  accept-Filtered :
      (o : Option TcpSegment)
      → if_parsed (parse_segment empty_segment d.payload (pseudo_cksum d.header)) ≡ o
      → passes a d.header ≡ true
      → Filtered a d (accept reread a d.header o)
  unfolding accept
  accept-Filtered none p h = dropped
  accept-Filtered (some seg) p h = elim (Bool-cases (seg.header.dport == a.cfg.source.port)) [
    | inr e ↦ is (none, a) (ground arith) dropped
    | inl e ↦ elim (Bool-cases a.listen) [
      | inl l ↦ elim (Bool-cases (seg.header.syn && not seg.header.rst)) [
        | inl s ↦
            is (some seg, adopt reread a d.header seg) (ground arith)
              (taken seg (adopt reread a d.header seg) p
                (record {
                  to = sym dst_reread;
                  from = sym src_reread;
                  proto = (passed h).0;
                  dport = ground arith;
                  sport = refl;
                })
                (inr (l, ground arith, ground arith, refl, refl)))
        | inr s ↦ is (none, a) (ground arith) dropped
      ]
      | inr l ↦ elim (Bool-cases (seg.header.sport == a.cfg.destination.port)) [
        | inl s ↦
            is (some seg, a) (ground arith)
              (taken seg a p
                (record {
                  to = ((passed h).1 l).0;
                  from = ((passed h).1 l).1;
                  proto = (passed h).0;
                  dport = ground arith;
                  sport = ground arith;
                })
                (inl (l, refl)))
        | inr s ↦ is (none, a) (ground arith) dropped
      ]
    ]
  ]
    where
      is :
          (r : Option TcpSegment × FdAdapterBase)
          → r ≡ accept reread a d.header (some seg)
          → Filtered a d r
          → Filtered a d (accept reread a d.header (some seg))
      is r q f = subst (Filtered a d) q f

  -- If an Address reads the two addresses of the datagram back from their texts: unwrap_tcp_in_ip
  -- either gives nothing and leaves the adapter as it is, or gives the segment that the payload
  -- parses to, which then goes between the adapter's two ends, addresses and ports. The adapter
  -- is the one before unless it listened; then the segment is a SYN without RST, and it listens
  -- no more.
  pub unwrap-Filtered : Filtered a d (unwrap_tcp_in_ip reread a d)
  unfolding unwrap_tcp_in_ip
  unwrap-Filtered = elim (Bool-cases (passes a d.header)) [
    | inl h ↦ rw h (accept-Filtered _ refl h)
    | inr h ↦ rw h dropped
  ]
