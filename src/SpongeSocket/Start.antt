-- ===== src/SpongeSocket/Start.antt =====
-- connect and listen_and_accept of libsponge/tcp_helpers/tcp_sponge_socket.cc, up to their loops. The
-- socket's optional connection is the first argument; the one in the state is set here.
use cs144_me.Prelude.{
  ◌^◌, ◌<◌, ◌≡◌, refl, Bool, true, ◌||◌, Option, none, some, [], ◌∷◌, if◌then◌else◌,
}
use cs144_me.Prelude.Result.{Result, ok, throw, runtime_error, ◌>>=◌}
use cs144_me.Wrapping.{big}
use cs144_me.TcpState
use cs144_me.TcpState.{State, of_state, not_equal}
use cs144_me.Connection
use cs144_me.Connection.{TcpConfig, TcpConnection, state}
use cs144_me.Connection.Open.{syn_segment, connect-new}
use cs144_me.Adapter.{FdAdapter, FdAdapterConfig}
use cs144_me.SpongeSocket.{TcpSpongeSocket}

module _ {A P : Type 0} (adapter : FdAdapter A P) where
  -- The test on the state after TCPConnection::connect.
  abbrev pub expect_syn_sent : TcpSpongeSocket A P → Result (TcpSpongeSocket A P)
  expect_syn_sent s =
      if not_equal (state s.tcp) (of_state State.syn_sent) then throw runtime_error else ok s

  unfoldable pub connect :
      Option TcpConnection
      → TcpConfig
      → FdAdapterConfig
      → TcpSpongeSocket A P
      → Result (TcpSpongeSocket A P)
  connect (some c) c_tcp c_ad s = throw runtime_error
  connect none c_tcp c_ad s = do
    c ← Connection.connect (Connection.new c_tcp)
    expect_syn_sent
        (record s { tcp = c; datagram_adapter = adapter.set_config s.datagram_adapter c_ad })

  unfoldable pub listen_and_accept :
      Option TcpConnection
      → TcpConfig
      → FdAdapterConfig
      → TcpSpongeSocket A P
      → Result (TcpSpongeSocket A P)
  listen_and_accept (some c) c_tcp c_ad s = throw runtime_error
  listen_and_accept none c_tcp c_ad s = ok (record s {
    tcp = Connection.new c_tcp;
    datagram_adapter = adapter.set_listening (adapter.set_config s.datagram_adapter c_ad) true;
  })

  -- The conditions of the two loops that follow.
  unfoldable pub is_connecting : TcpSpongeSocket A P → Bool
  is_connecting s = TcpState.equal (state s.tcp) (of_state State.syn_sent)

  unfoldable pub is_accepting : TcpSpongeSocket A P → Bool
  is_accepting s =
      TcpState.equal (state s.tcp) (of_state State.listen)
      || (TcpState.equal (state s.tcp) (of_state State.syn_rcvd)
          || TcpState.equal (state s.tcp) (of_state State.syn_sent))

  -- On a socket with no connection, with a send capacity below 2 ^ 31 and a 32-bit initial number,
  -- connect throws nothing: the state is the expected one, so that its loop begins, and what rule 4
  -- is to send is one SYN with that number, from the adapter with the given configuration. On a
  -- socket with a connection it throws.
  pub connect_lem :
      (c_tcp : TcpConfig) (c_ad : FdAdapterConfig) (s : TcpSpongeSocket A P)
      → c_tcp.send_capacity < 2 ^ 31
      → c_tcp.isn < big
      → ((s' : TcpSpongeSocket A P) × (connect none c_tcp c_ad s ≡ ok s')
          × (is_connecting s' ≡ true)
          × (s'.tcp.segments_out ≡ syn_segment c_tcp.isn ∷ [])
          × (s'.datagram_adapter ≡ adapter.set_config s.datagram_adapter c_ad))
        × ((c : TcpConnection) → connect (some c) c_tcp c_ad s ≡ throw runtime_error)
  unfolding connect is_connecting not_equal TcpState.equal of_state TcpState.same_sender
      TcpState.same_receiver
  connect_lem c_tcp c_ad s h k =
      let (c, e, out, q, st) = connect-new c_tcp h k in
      (
        (
          record s { tcp = c; datagram_adapter = adapter.set_config s.datagram_adapter c_ad },
          rw (e, st) refl,
          rw st refl,
          out,
          refl,
        ),
        λ c'. refl,
      )
