-- ===== src/SpongeSocket/Rules.antt =====
-- _initialize_TCP of libsponge/tcp_helpers/tcp_sponge_socket.cc: the four rules as rules of EventLoop.
use cs144_me.Prelude.{ℕ, Option, List, [], ◌∷◌}
use cs144_me.Prelude.Result.{Result, ok}
use cs144_me.EventLoop.{Rule, Direction}
use cs144_me.Adapter.{FdAdapter}
use cs144_me.SpongeSocket.{
  TcpSpongeSocket, AdapterCalls, on_datagram, wants_datagram, on_outbound, wants_outbound,
  end_outbound, on_inbound, wants_inbound, on_segments, wants_segments,
}

-- What the system answers in one round of the loop: the packet of the adapter, what the
-- pipe gives to a read of some size, and what it takes of a write.
pub record Answers (P : Type 0) : Type 0 where
  pub packet : P
  pub outbound : ℕ → Option (List ℕ)
  pub kernel : ℕ → ℕ → Option ℕ

-- The default of `cancel`
abbrev pub no_cancel : {S : Type 0} → S → Result S
no_cancel s = ok s

module _ {A P : Type 0} (adapter : FdAdapter A P) (calls : AdapterCalls P)
    (answers : Answers P) where
  abbrev pub datagram_rule : Rule (TcpSpongeSocket A P)
  datagram_rule = record {
    fd = λ s. s.adapter_fd;
    direction = Direction.in_dir;
    callback = on_datagram adapter calls answers.packet;
    interest = wants_datagram adapter calls;
    cancel = no_cancel;
  }

  abbrev pub outbound_rule : Rule (TcpSpongeSocket A P)
  outbound_rule = record {
    fd = λ s. s.thread_data;
    direction = Direction.in_dir;
    callback = on_outbound adapter calls answers.outbound;
    interest = wants_outbound adapter calls;
    cancel = end_outbound adapter calls;
  }

  abbrev pub inbound_rule : Rule (TcpSpongeSocket A P)
  inbound_rule = record {
    fd = λ s. s.thread_data;
    direction = Direction.out_dir;
    callback = on_inbound adapter calls answers.kernel;
    interest = wants_inbound adapter calls;
    cancel = no_cancel;
  }

  abbrev pub segments_rule : Rule (TcpSpongeSocket A P)
  segments_rule = record {
    fd = λ s. s.adapter_fd;
    direction = Direction.out_dir;
    callback = on_segments adapter calls;
    interest = wants_segments adapter calls;
    cancel = no_cancel;
  }

  -- _initialize_TCP
  unfoldable pub rules : List (Rule (TcpSpongeSocket A P))
  rules = datagram_rule ∷ outbound_rule ∷ inbound_rule ∷ segments_rule ∷ []
