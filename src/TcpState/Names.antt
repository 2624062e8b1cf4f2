-- ===== src/TcpState/Names.antt =====
-- operator== and the named states of libsponge/tcp_helpers/tcp_state.cc.
use cs144_me.Prelude.{◌≡◌, ◌↔◌, ap, sym, ◌∙◌, Bool, true, false, arith}
use cs144_me.TcpState.{
  ReceiverSummary, SenderSummary, State, TcpState, same_receiver, same_sender, equal, of_state,
}

same_receiver_lem : (a b : ReceiverSummary) → same_receiver a b ≡ true → a ≡ b
unfolding same_receiver
same_receiver_lem a b h = ground arith

same_sender_lem : (a b : SenderSummary) → same_sender a b ≡ true → a ≡ b
unfolding same_sender
same_sender_lem a b h = ground arith

reflexive : (a : TcpState) → equal a a ≡ true
unfolding equal same_receiver same_sender
reflexive a = ground arith

-- Two states are equal by operator== exactly if both summaries and both flags are.
pub equal_lem : (a b : TcpState) → (equal a b ≡ true) ↔ (a ≡ b)
unfolding equal
equal_lem a b = (
  λ h. ground (arith, same_receiver_lem a.receiver b.receiver, same_sender_lem a.sender b.sender),
  λ e. rw e (reflexive b),
)

-- The name of a state, from its fields.
abbrev name_of : SenderSummary → ReceiverSummary → Bool → Bool → State
name_of SenderSummary.closed ReceiverSummary.listen linger active = State.listen
name_of SenderSummary.syn_sent ReceiverSummary.syn_recv linger active = State.syn_rcvd
name_of SenderSummary.syn_sent ReceiverSummary.listen linger active = State.syn_sent
name_of SenderSummary.syn_acked ReceiverSummary.syn_recv linger active = State.established
name_of SenderSummary.syn_acked ReceiverSummary.fin_recv linger active = State.close_wait
name_of SenderSummary.fin_sent ReceiverSummary.fin_recv true active = State.closing
name_of SenderSummary.fin_sent ReceiverSummary.fin_recv false active = State.last_ack
name_of SenderSummary.fin_sent ReceiverSummary.syn_recv linger active = State.fin_wait_1
name_of SenderSummary.fin_acked ReceiverSummary.syn_recv linger active = State.fin_wait_2
name_of SenderSummary.fin_acked ReceiverSummary.fin_recv linger true = State.time_wait
name_of SenderSummary.fin_acked ReceiverSummary.fin_recv linger false = State.closed
name_of _ _ _ _ = State.reset

name_of_lem : (a : State) → let t = of_state a in name_of t.sender t.receiver t.linger t.active ≡ a
unfolding of_state
name_of_lem a = ground arith

-- The states made from two names are equal by operator== only if the names are the same.
of_state_distinct : (a b : State) → equal (of_state a) (of_state b) ≡ true → a ≡ b
of_state_distinct a b h =
    sym (name_of_lem a)
    ∙ ap (λ t. name_of t.sender t.receiver t.linger t.active)
        ((equal_lem (of_state a) (of_state b)).0 h)
    ∙ name_of_lem b
