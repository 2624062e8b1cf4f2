-- ===== src/Connection/Linger.antt =====
-- tick of libsponge/tcp_connection.cc in TIME_WAIT, over several calls.
use cs144_me.Prelude.{
  Bool-cases, inl, inr, ltb→lt, ℕ, ◌+◌, ◌*◌, ◌^◌, ◌≤◌, ◌<◌, ◌≡◌, ◌∙◌, sym, ap, refl, true, false,
  List, [], ◌∷◌, ltb, if◌then◌else◌, arith, append-nil,
}
use cs144_me.Header.Tcp.{TcpSegment}
use cs144_me.Prelude.Word.{add_size}
use cs144_me.Prelude.Result.{if-both}
use cs144_me.Sender
use cs144_me.Sender.Timer.{sum}
use cs144_me.TcpState
use cs144_me.TcpState.{TcpState, State, of_state, of_parts}
use cs144_me.TcpState.Names.{equal_lem}
use cs144_me.Connection.{TcpConnection, state, tick, seg_2_seg, is_done}

unfoldable pub ticks : TcpConnection → List ℕ → TcpConnection
ticks c [] = c
ticks c (ms ∷ times) = ticks (tick c ms) times

-- The times that tick adds up.
abbrev pub aged : TcpConnection → ℕ → TcpConnection
aged c ms = record c {
  time_since_last_segment_received = c.time_since_last_segment_received + ms;
  since_time_wait = c.since_time_wait + ms;
}

-- An end with nothing to send again, and nothing that its sender has left for it to send.
abbrev pub IsQuiet : TcpConnection → Type 0
IsQuiet c = (c.sender.outstandings ≡ []) × (c.sender.segments_out ≡ [])

sender_quiet : (c : TcpConnection) (ms : ℕ) → IsQuiet c → Sender.tick c.sender ms ≡ c.sender
unfolding Sender.tick Sender.tick_queue
sender_quiet c ms q = rw (q.0) refl

is_waiting :
    (c : TcpConnection)
    → state c ≡ of_state State.time_wait
    → TcpState.equal (of_parts c.sender c.receiver c.active c.linger) (of_state State.time_wait)
      ≡ true
unfolding state
is_waiting c h =
    (equal_lem (of_parts c.sender c.receiver c.active c.linger) (of_state State.time_wait)).1 h

is_closed :
    (c : TcpConnection)
    → state c ≡ of_state State.closed
    → TcpState.equal (of_parts c.sender c.receiver c.active c.linger) (of_state State.time_wait)
      ≡ false
unfolding state TcpState.equal of_state
is_closed c h = rw h refl

tick_waiting :
    (c : TcpConnection) (ms : ℕ)
    → state c ≡ of_state State.time_wait
    → IsQuiet c
    → c.since_time_wait + ms < 10 * c.cfg.rt_timeout
    → c.since_time_wait + ms < 2 ^ 64
    → c.time_since_last_segment_received + ms < 2 ^ 64
    → tick c ms ≡ aged c ms
unfolding tick state
tick_waiting c ms h q k w t = rw (sender_quiet c ms q, is_waiting c h) (ground arith)

tick_expired :
    (c : TcpConnection) (ms : ℕ)
    → state c ≡ of_state State.time_wait
    → IsQuiet c
    → 10 * c.cfg.rt_timeout ≤ c.since_time_wait + ms
    → c.since_time_wait + ms < 2 ^ 64
    → c.time_since_last_segment_received + ms < 2 ^ 64
    → tick c ms ≡ record (aged c ms) { linger = false; active = false }
unfolding tick state
tick_expired c ms h q k w t = rw (sender_quiet c ms q, is_waiting c h) (ground arith)

-- An end in CLOSED, with its queue.
abbrev IsClosed : List TcpSegment → TcpConnection → Type 0
IsClosed out c = (state c ≡ of_state State.closed) × IsQuiet c × (c.segments_out ≡ out)

abbrev shut : TcpState → TcpState
shut t = record t { active = false; linger = false }

expired-IsClosed :
    (c : TcpConnection) (ms : ℕ)
    → state c ≡ of_state State.time_wait
    → IsQuiet c
    → IsClosed c.segments_out (record (aged c ms) { linger = false; active = false })
unfolding state of_parts of_state
expired-IsClosed c ms h q = (ap shut h, q, refl)

seg_2_seg_quiet : (c : TcpConnection) → c.sender.segments_out ≡ [] → seg_2_seg c ≡ c
unfolding seg_2_seg
seg_2_seg_quiet c e = rw e (
    ap (λ out. record c { sender = record (c.sender) { segments_out = [] }; segments_out = out })
      (append-nil c.segments_out))

closed-inactive : (c : TcpConnection) → state c ≡ of_state State.closed → c.active ≡ false
unfolding state of_parts of_state
closed-inactive c h = ap (λ t. t.active) h

inactive-IsClosed :
    (c : TcpConnection) (out : List TcpSegment)
    → IsClosed out c
    → IsClosed out (record c { active = false })
unfolding state of_parts of_state
inactive-IsClosed c out (h, q, e) = (ap shut h, q, e)

-- The end after a tick that changes only the time since the last segment.
abbrev later : TcpConnection → ℕ → TcpConnection
later c ms = record c {
  time_since_last_segment_received = add_size c.time_since_last_segment_received ms;
}

tick_closed :
    (c : TcpConnection) (ms : ℕ)
    → state c ≡ of_state State.closed
    → IsQuiet c
    → tick c ms
      ≡ (if is_done (later c ms) then record (later c ms) { active = false } else later c ms)
unfolding tick state
tick_closed c ms h q =
    rw (sender_quiet c ms q, is_closed c h, seg_2_seg_quiet (later c ms) (q.1))
      (rw (closed-inactive c h) refl)

tick-IsClosed :
    (c : TcpConnection) (ms : ℕ) (out : List TcpSegment) → IsClosed out c → IsClosed out (tick c ms)
unfolding state
tick-IsClosed c ms out (h, q, e) = rw (tick_closed c ms h q) (
    if-both (IsClosed out) (is_done (later c ms)) (record (later c ms) { active = false })
      (later c ms) (inactive-IsClosed (later c ms) out (h, q, e)) (h, q, e))

ticks-IsClosed :
    (c : TcpConnection) (times : List ℕ) (out : List TcpSegment)
    → IsClosed out c
    → IsClosed out (ticks c times)
unfolding ticks
ticks-IsClosed c [] out h = h
ticks-IsClosed c (ms ∷ times) out h =
    ticks-IsClosed (tick c ms) times out (tick-IsClosed c ms out h)

-- The official state after a time in TIME_WAIT.
abbrev pub lingering : ℕ → ℕ → State
lingering limit waited = if ltb waited limit then State.time_wait else State.closed

expired-lingering : (limit waited : ℕ) → limit ≤ waited → lingering limit waited ≡ State.closed
expired-lingering limit waited h = ground arith

-- An end in TIME_WAIT that has nothing to send again, whose time there is short of ten timeouts and
-- does not overflow. It stays in TIME_WAIT while the times of the calls add up to less than ten
-- timeouts, is in CLOSED from the call on that reaches them, and sends nothing.
pub ticks-linger :
    (c : TcpConnection) (times : List ℕ)
    → state c ≡ of_state State.time_wait
    → IsQuiet c
    → c.since_time_wait < 10 * c.cfg.rt_timeout
    → c.since_time_wait + sum times < 2 ^ 64
    → c.time_since_last_segment_received + sum times < 2 ^ 64
    → (state (ticks c times)
        ≡ of_state (lingering (10 * c.cfg.rt_timeout) (c.since_time_wait + sum times)))
      × IsQuiet (ticks c times)
      × ((ticks c times).segments_out ≡ c.segments_out)
unfolding ticks state
ticks-linger c [] h q l w t = (ground arith, q, refl)
ticks-linger c (ms ∷ times) h q l w t =
    let assoc : c.since_time_wait + (ms + sum times) ≡ c.since_time_wait + ms + sum times =
      omega arith in
    elim (Bool-cases (ltb (c.since_time_wait + ms) (10 * c.cfg.rt_timeout))) [
      | inl e ↦
          rw (ticks, tick_waiting c ms h q (ltb→lt _ _ e) (omega arith) (omega arith), assoc)
            (ticks-linger (aged c ms) times h q (ltb→lt _ _ e) (omega arith) (omega arith))
      | inr e ↦
          let k : 10 * c.cfg.rt_timeout ≤ c.since_time_wait + ms = ground (arith, e) in
          let done : IsClosed c.segments_out
              (ticks (record (aged c ms) { linger = false; active = false }) times) =
            ticks-IsClosed (record (aged c ms) { linger = false; active = false }) times
              c.segments_out (expired-IsClosed c ms h q) in
          rw (ticks, tick_expired c ms h q k (omega arith) (omega arith))
            (
              done.0
                  ∙ ap of_state (
                      sym (
                        expired-lingering (10 * c.cfg.rt_timeout)
                          (c.since_time_wait + (ms + sum times)) (omega arith))),
              done.1,
              done.2,
            )
    ]
