-- ===== src/SpongeSocket/Inbound.antt =====
-- Rule 3 of libsponge/tcp_helpers/tcp_sponge_socket.cc: the bytes of the stream reach the application.
use cs144_me.Prelude.{
  ℕ, ◌^◌, ◌≤◌, ◌<◌, ◌≡◌, min, refl, ap, ◌∙◌, Option, List, [], ◌++◌, length, take, drop,
  length-append, length-take, length-drop, take-take, arith, Bool-cases, inl, inr, append_assoc,
  append-nil, take-append-drop,
}
use cs144_me.Prelude.Result.{ok}
use cs144_me.ByteStream.{ByteStream}
use cs144_me.ByteStream.Inv.{IsValid, pop_output_lem, after_pop, peek_lem}
use cs144_me.FileDescriptor.{Written, register_write}
use cs144_me.FileDescriptor.Laws.{IsTaking, write_once, written, text}
use cs144_me.Buffer.BufferViewList.{of_view, as_iovecs}
use cs144_me.Adapter.{FdAdapter}
use cs144_me.SpongeSocket.{
  TcpSpongeSocket, AdapterCalls, on_inbound, inbound_stream, is_over, handed_over,
}

module _ {A P : Type 0} (adapter : FdAdapter A P) (calls : AdapterCalls P)
    (s : TcpSpongeSocket A P) where
  handed_over_lem :
      (w : Written) (out : ByteStream)
      → ((handed_over adapter calls s w out).delivered ≡ s.delivered ++ w.taken)
        × (inbound_stream (handed_over adapter calls s w out).tcp ≡ out)
  handed_over_lem w out = elim (Bool-cases (is_over out)) [
    | inl h ↦ rw h (refl, refl)
    | inr h ↦ rw h (refl, refl)
  ]

  moved :
      (buffer before : List ℕ) (m n : ℕ)
      → n ≤ m
      → (before ++ take n (take m buffer ++ [])) ++ drop n buffer ≡ before ++ buffer
  moved buffer before m n h =
      append_assoc before _ _
      ∙ ap (λ x. before ++ (take n x ++ drop n buffer)) (append-nil (take m buffer))
      ∙ ap (λ x. before ++ (x ++ drop n buffer)) (take-take n m buffer h)
      ∙ ap (λ x. before ++ x) (take-append-drop n buffer)

  -- With a valid inbound stream and a kernel that takes some of what it is offered, rule 3 throws
  -- nothing; the bytes that the application has got and those still in the stream make the same
  -- string as before; and bytes have moved if there were any.
  pub on_inbound_lem :
      (kernel : ℕ → ℕ → Option ℕ)
      → IsTaking kernel
      → IsValid (inbound_stream s.tcp)
      → (s' : TcpSpongeSocket A P) × (on_inbound adapter calls kernel s ≡ ok s')
        × (s'.delivered ++ (inbound_stream s'.tcp).buffer
            ≡ s.delivered ++ (inbound_stream s.tcp).buffer)
        × (0 < length (inbound_stream s.tcp).buffer
            → length (inbound_stream s'.tcp).buffer < length (inbound_stream s.tcp).buffer)
  unfolding on_inbound as_iovecs
  on_inbound_lem kernel t v = (
    handed_over adapter calls s w (after_pop inbound n),
    rw
        (
          peek_lem inbound 65536,
          write_once kernel s.thread_data (of_view bytes) t small,
          pop_output_lem n v fits,
        )
        refl,
    rw (handed.0, handed.1) (moved inbound.buffer s.delivered m n few),
    λ h. rw handed.1 (
        omega
          (arith, length-drop n inbound.buffer, size, t.least 0 (length (text (of_view bytes))))),
  )
    where
      inbound : ByteStream
      inbound = inbound_stream s.tcp

      m : ℕ
      m = min 65536 (length inbound.buffer)

      bytes : List ℕ
      bytes = take m inbound.buffer

      size : length (text (of_view bytes)) ≡ m
      size = omega (arith, length-append bytes [], length-take m inbound.buffer)

      small : length (text (of_view bytes)) < 2 ^ 31
      small = omega (arith, size)

      n : ℕ
      n = t.answer 0 (length (text (of_view bytes)))

      few : n ≤ m
      few = omega (arith, t.most 0 (length (text (of_view bytes))), size)

      fits : n ≤ length inbound.buffer
      fits = omega (arith, few)

      w : Written
      w = written n (register_write s.thread_data) (take n (text (of_view bytes)))

      handed :
          ((handed_over adapter calls s w (after_pop inbound n)).delivered ≡ s.delivered ++ w.taken)
          × (inbound_stream (handed_over adapter calls s w (after_pop inbound n)).tcp
              ≡ after_pop inbound n)
      handed = handed_over_lem w (after_pop inbound n)
