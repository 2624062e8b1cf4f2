-- ===== src/Reassembler/Push.antt =====
-- push_substring of libsponge/stream_reassembler.cc against the stream that the substrings come from.
use cs144_me.Prelude.{
  ℕ, ◌+◌, ◌-◌, ◌^◌, ◌≤◌, ◌<◌, ◌≡◌, min, max, refl, List, [], ◌∷◌, none, some, length, arith, leb,
  Bool, ◌||◌, if◌then◌else◌, Bool-cases, inl, inr, leb→le, leb_false→lt,
}
use cs144_me.Prelude.Word.{add_size}
use cs144_me.Prelude.Result.{ok, ◌>>=◌}
use cs144_me.Reassembler.{
  StreamReassembler, Piece, trim_front, trim_back, trim_back_of, add_piece, add_temp_cash,
}
use cs144_me.Reassembler.Slice.{slice, slice_cong}
use cs144_me.Reassembler.Pieces.{IsPiece, within}
use cs144_me.Reassembler.Flush.{has}
use cs144_me.Reassembler.Trim.{
  Inv, Pushed, add_piece_lem, adds, trim_back_lem, trim_front_lem, unchanged, window,
}

module _ (src : ℕ → ℕ) (r : StreamReassembler) (v : Inv src r) where
  module _ (bytes : List ℕ) (index : ℕ) (e : bytes ≡ slice src index (length bytes))
      (some_bytes : 0 < length bytes) (h : index + length bytes ≤ window r + 2 ^ 31) where
    abbrev front : Piece
    front = record {
      lb = max index r.output.written;
      rb = index + length bytes - 1;
      bytes =
          slice src (max index r.output.written)
            (index + length bytes - max index r.output.written);
    }

    abbrev cut : Piece
    cut = record {
      lb = max index r.output.written;
      rb = min (index + length bytes - 1) (window r - 1);
      bytes =
          slice src (max index r.output.written)
            (min (index + length bytes - 1) (window r - 1) + 1 - max index r.output.written);
    }

    in_front :
        r.output.written < index + length bytes
        → trim_back r front ≡ (if leb (window r) front.lb then none else some cut)
    in_front k =
        trim_back_lem src r v front (slice_cong src refl (omega (arith, some_bytes)))
          (omega (arith, some_bytes)) (omega (arith, some_bytes))

    cut-IsPiece :
        r.output.written < index + length bytes
        → front.lb < window r
        → IsPiece src (window r) r.output.written cut
    cut-IsPiece k l = record {
      start = omega arith;
      order = omega (arith, some_bytes);
      below = omega arith;
      bytes = refl;
    }

    cut-adds :
        (i : ℕ)
        → r.output.written < index + length bytes
        → front.lb < window r
        → (has r.output r.m i || within cut i)
          ≡ (has r.output r.m i || adds r index (length bytes) i)
    cut-adds i k l = ground (arith, some_bytes)

    after_front :
        (r' : StreamReassembler) × ((trim_front r bytes index >>= λ front.
        add_piece r (trim_back_of r front))
          ≡ ok r')
        × Pushed src r (adds r index (length bytes)) r'
    unfolding add_piece
    after_front = elim (Bool-cases (leb (index + length bytes) r.output.written)) [
      | inl old ↦ (
        r,
        rw (
          trim_front_lem src r v bytes index e some_bytes (omega (arith, v.output.small)),
          old,
          add_piece,
        ),
        unchanged src r v _ (λ i p. ground (arith, leb→le _ _ old)),
      )
      | inr new ↦ elim (Bool-cases (leb (window r) front.lb)) [
        | inl past ↦ (
          r,
          rw (
            trim_front_lem src r v bytes index e some_bytes (omega (arith, v.output.small)),
            new,
            in_front (leb_false→lt _ _ new),
            past,
            add_piece,
          ),
          unchanged src r v _ (λ i p. ground (arith, leb→le _ _ past)),
        )
        | inr fits ↦
            let (r', q, w) =
              add_piece_lem src r v cut (adds r index (length bytes))
                (cut-IsPiece (leb_false→lt _ _ new) (leb_false→lt _ _ fits))
                (λ i. cut-adds i (leb_false→lt _ _ new) (leb_false→lt _ _ fits)) in
            (
              r',
              rw
                  (
                    trim_front_lem src r v bytes index e some_bytes (omega (arith, v.output.small)),
                    new,
                    in_front (leb_false→lt _ _ new),
                    fits,
                  )
                  q,
              w,
            )
      ]
    ]

  pub add_temp_cash_lem :
      (bytes : List ℕ) (index : ℕ)
      → bytes ≡ slice src index (length bytes)
      → index + length bytes ≤ window r + 2 ^ 31
      → (r' : StreamReassembler) × (add_temp_cash r bytes index ≡ ok r')
        × Pushed src r (adds r index (length bytes)) r'
  unfolding add_temp_cash
  add_temp_cash_lem [] index e h = (r, refl, unchanged src r v _ (λ i p. absurd (ground arith)))
  add_temp_cash_lem (b ∷ bytes) index e h = after_front (b ∷ bytes) index e (omega arith) h

-- The state with the end of the stream set, as push_substring begins.
abbrev pub marked : StreamReassembler → ℕ → ℕ → Bool → StreamReassembler
marked r index n eof = record r { end_idx = if eof then add_size index n else r.end_idx }

pub marked-Inv :
    (src : ℕ → ℕ) (r : StreamReassembler) (index n : ℕ) (eof : Bool)
    → Inv src r
    → Inv src (marked r index n eof)
marked-Inv src r index n eof v = record {
  output = record {
    valid = v.output.valid;
    capacity = v.output.capacity;
    window = v.output.window;
    small = v.output.small;
    bytes = v.output.bytes;
    chunks = v.output.chunks;
    count = v.output.count;
  };
  gap = v.gap;
}
