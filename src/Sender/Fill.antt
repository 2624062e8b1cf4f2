-- ===== src/Sender/Fill.antt =====
-- fill_window of libsponge/tcp_sender.cc: its loop and the window.
use cs144_me.Prelude.{
  ℕ, zero, suc, ◌+◌, ◌-◌, ◌^◌, ◌≤◌, ◌<◌, ◌≡◌, ◌⊎◌, inl, inr, min, max, refl, ap, ◌∙◌, Bool, true,
  false, not, ◌&&◌, leb, ◌==◌, arith, Bool-cases, leb→le, leb_false→lt,
}
use cs144_me.Prelude.Result.{ok}
use cs144_me.ByteStream.{eof, buffer_empty, input_ended}
use cs144_me.ByteStream.Inv.{read_lem, bytes_written_lem}
use cs144_me.Sender.{
  TcpSender, max_payload_size, fill_loop, fill_fuel, fill_window, ready_to_fin, nothing_to_send,
  payload_room, send_next,
}
use cs144_me.Sender.Inv.{Inv, sent, spent, with_fin, space, send_payload_lem, sent-Inv}

-- A round that sends, for an open window that its tests let through.
module _ {s : TcpSender} {base : ℕ} (v : Inv s base) (open_window : s.next_seqno ≤ s.window_right)
    (small : s.window_right < 2 ^ 61) (some_work : nothing_to_send s ≡ false) where
  abbrev pub syn : Bool
  syn = s.next_seqno == 0

  abbrev pub room : ℕ
  room = payload_room s syn

  pub room_lem : room ≡ min (s.window_right + 1 - s.next_seqno - space syn) max_payload_size
  unfolding payload_room
  room_lem = ground arith

  abbrev pub after : TcpSender
  after = sent s syn (with_fin s syn room) room

  pub send_next_lem : send_next s ≡ ok after
  unfolding send_next
  send_next_lem =
      rw (read_lem room v.stream)
        (ap ok (send_payload_lem v room (omega (arith, room_lem)) (omega arith) syn))

  pub progress : 0 < spent s syn (with_fin s syn room) room
  unfolding nothing_to_send ready_to_fin buffer_empty eof input_ended
  progress = ground (
    arith,
    room_lem,
    some_work,
    bytes_written_lem v.stream,
    v.stream.counted,
    v.finished,
    v.ahead,
  )

  pub bounded : spent s syn (with_fin s syn room) room ≤ s.window_right + 1 - s.next_seqno
  bounded = ground (arith, room_lem)

  pub after-Inv : Inv after base
  after-Inv =
      sent-Inv v room (omega (arith, room_lem)) (omega arith) syn (with_fin s syn room) refl
        progress (λ e. ground arith)

-- What the loop leaves of the state it starts from.
pub record Filled (s : TcpSender) (base : ℕ) (s' : TcpSender) : Type 0 where
  pub inv : Inv s' base
  pub forward : s.next_seqno ≤ s'.next_seqno
  pub within : s'.next_seqno ≤ max s.next_seqno (s.window_right + 1)
  pub window_right : s'.window_right ≡ s.window_right
  pub window : s'.window ≡ s.window
  pub isn : s'.isn ≡ s.isn
  pub stop : (s.window_right < s'.next_seqno) ⊎ (nothing_to_send s' ≡ true)

pub fill_loop_done :
    (fuel : ℕ) (s : TcpSender)
    → (s.window_right < s.next_seqno) ⊎ (nothing_to_send s ≡ true)
    → fill_loop (suc fuel) s ≡ ok s
unfolding fill_loop
fill_loop_done fuel s h = ground arith

pub fill_loop_more :
    (fuel : ℕ) (s s' : TcpSender)
    → leb s.next_seqno s.window_right ≡ true
    → nothing_to_send s ≡ false
    → send_next s ≡ ok s'
    → fill_loop (suc fuel) s ≡ fill_loop fuel s'
unfolding fill_loop
fill_loop_more fuel s s' o m e = rw (o, m, e) refl

fill_loop_lem :
    (fuel : ℕ) {s : TcpSender} {base : ℕ}
    → Inv s base
    → s.window_right < 2 ^ 61
    → s.window_right + 1 - s.next_seqno < fuel
    → (s' : TcpSender) × (fill_loop fuel s ≡ ok s') × Filled s base s'
fill_loop_lem zero v w h = absurd (omega arith)
fill_loop_lem (suc fuel) {s} {base} v w h = elim (Bool-cases (leb s.next_seqno s.window_right)) [
  | inl o ↦ elim (Bool-cases (nothing_to_send s)) [
    | inl d ↦ (
      s,
      fill_loop_done fuel s (inr d),
      record {
        inv = v;
        forward = omega arith;
        within = omega arith;
        window_right = refl;
        window = refl;
        isn = refl;
        stop = inr d;
      },
    )
    | inr m ↦
        let open_window = leb→le s.next_seqno s.window_right o in
        let p = progress v open_window w m in
        let b = bounded v open_window w m in
        let (s', e, f) =
          fill_loop_lem fuel {s = after v open_window w m} (after-Inv v open_window w m) w
            (omega (arith, p, b)) in
        (
          s',
          fill_loop_more fuel s (after v open_window w m) o m (send_next_lem v open_window w m) ∙ e,
          record {
            inv = f.inv;
            forward = omega (arith, f.forward);
            within = omega (arith, f.within, b);
            window_right = f.window_right;
            window = f.window;
            isn = f.isn;
            stop = f.stop;
          },
        )
  ]
  | inr c ↦ (
    s,
    fill_loop_done fuel s (inl (leb_false→lt s.next_seqno s.window_right c)),
    record {
      inv = v;
      forward = omega arith;
      within = omega arith;
      window_right = refl;
      window = refl;
      isn = refl;
      stop = inl (leb_false→lt s.next_seqno s.window_right c);
    },
  )
]

-- With the window open (or the probe under way), the invariant, and a right edge below 2 ^ 61,
-- fill_window throws nothing and keeps the invariant. The loop ends by its tests: either no number
-- is left in the window, or nothing is ready to be sent. No sequence number is given back, and none
-- is sent past the right edge of the window.
pub fill_window_lem :
    (s : TcpSender) (base : ℕ)
    → Inv s base
    → s.window_right < 2 ^ 61
    → (s.window == 0 && not s.probing) ≡ false
    → (s' : TcpSender) × (fill_window s ≡ ok s') × Filled s base s'
unfolding fill_window
fill_window_lem s base v w h = rw h (fill_loop_lem (fill_fuel s) v w (omega arith))
