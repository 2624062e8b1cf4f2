-- ===== src/Sender/Timer.antt =====
-- tick of libsponge/tcp_sender.cc over several calls.
use cs144_me.Prelude.{
  ℕ, zero, suc, ◌+◌, ◌*◌, ◌^◌, ◌≤◌, ◌<◌, ◌≡◌, ap, sym, ◌∙◌, List, [], ◌∷◌, ◌++◌, length, replicate,
  arith, append_assoc, append-nil,
}
use cs144_me.Header.Tcp.{TcpSegment}
use cs144_me.Sender.{TcpSender, tick, tick_queue}

unfoldable pub ticks : TcpSender → List ℕ → TcpSender
ticks s [] = s
ticks s (ms ∷ rest) = ticks (tick s ms) rest

abbrev pub sum : List ℕ → ℕ
sum [] = 0
sum (x ∷ xs) = x + sum xs

pub double_first : (r n : ℕ) → r * 2 ^ suc n ≡ r * 2 * 2 ^ n
double_first r n = grind arith

pub le_doubled : (r n : ℕ) → r ≤ r * 2 ^ n
le_doubled r zero = omega arith
le_doubled r (suc n) = omega (arith, double_first r n, le_doubled (r * 2) n)

tick_early :
    (s : TcpSender) (seg : TcpSegment) (segs : List TcpSegment) (ms : ℕ)
    → s.outstandings ≡ seg ∷ segs
    → s.time_passed + ms < s.rto
    → s.rto < 2 ^ 32
    → tick s ms ≡ record s { time_passed = s.time_passed + ms }
unfolding tick tick_queue
tick_early s seg segs ms e h w = rw e (ground arith)

-- The state after a timeout with an open window.
abbrev pub fired : TcpSender → TcpSegment → TcpSender
fired s seg = record s {
  segments_out = s.segments_out ++ (seg ∷ []);
  recount = s.recount + 1;
  rto = s.rto * 2;
  time_passed = 0;
}

pub tick_late :
    (s : TcpSender) (seg : TcpSegment) (segs : List TcpSegment) (ms : ℕ)
    → s.outstandings ≡ seg ∷ segs
    → 0 < s.window
    → s.time_passed < 2 ^ 62
    → s.rto * 2 < 2 ^ 32
    → s.recount + 1 < 2 ^ 32
    → s.rto ≤ ms
    → ms < 2 ^ 62
    → tick s ms ≡ fired s seg
unfolding tick tick_queue
tick_late s seg segs ms e o t r c l k = rw e (ground arith)

-- While the time since the last (re)transmission stays below the timeout, the calls send nothing
-- and only count the time.
ticks_quiet :
    (s : TcpSender) (seg : TcpSegment) (segs : List TcpSegment) (times : List ℕ)
    → s.outstandings ≡ seg ∷ segs
    → s.time_passed + sum times < s.rto
    → s.rto < 2 ^ 32
    → ticks s times ≡ record s { time_passed = s.time_passed + sum times }
unfolding ticks tick tick_queue
ticks_quiet s seg segs [] e h w = ground arith
ticks_quiet s seg segs (ms ∷ times) e h w =
    rw (ticks, tick_early s seg segs ms e (omega arith) w)
      (ticks_quiet (record s { time_passed = s.time_passed + ms }) seg segs times e (omega arith) w
        ∙ ap (λ t. record s { time_passed = t }) (omega arith))

-- Each time is at least the timeout that the calls before it have doubled.
abbrev pub AllLate : ℕ → List ℕ → Type 0
AllLate rto [] = Unit
AllLate rto (ms ∷ times) = (rto ≤ ms) × (ms < 2 ^ 62) × AllLate (rto * 2) times

-- With an open window and the oldest outstanding segment `seg`, k calls that each pass the current
-- timeout send `seg` k times, count k retransmissions and multiply the timeout by 2 ^ k, as long as
-- neither number wraps.
ticks_backoff :
    (s : TcpSender) (seg : TcpSegment) (segs : List TcpSegment) (times : List ℕ)
    → s.outstandings ≡ seg ∷ segs
    → 0 < s.window
    → s.time_passed < 2 ^ 62
    → s.rto * 2 ^ length times < 2 ^ 32
    → s.recount + length times < 2 ^ 32
    → AllLate s.rto times
    → ((ticks s times).segments_out ≡ s.segments_out ++ replicate (length times) seg)
      × ((ticks s times).rto ≡ s.rto * 2 ^ length times)
      × ((ticks s times).recount ≡ s.recount + length times)
unfolding ticks tick tick_queue
ticks_backoff s seg segs [] e o t r c l =
    (sym (append-nil s.segments_out), omega arith, omega arith)
ticks_backoff s seg segs (ms ∷ times) e o t r c l =
    let ih =
      ticks_backoff (fired s seg) seg segs times e o (omega arith)
        (omega (arith, double_first s.rto (length times))) (omega arith) l.2 in
    rw
      (
        ticks,
        tick_late s seg segs ms e o t
            (omega
              (arith, double_first s.rto (length times), le_doubled (s.rto * 2) (length times)))
            (omega arith) l.0 l.1,
      )
      (
        ih.0 ∙ append_assoc s.segments_out (seg ∷ []) (replicate (length times) seg),
        omega (arith, ih.1, double_first s.rto (length times)),
        omega (arith, ih.2),
      )
