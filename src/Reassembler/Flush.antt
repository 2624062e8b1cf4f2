-- ===== src/Reassembler/Flush.antt =====
-- The last loop of AddTempCash of libsponge/stream_reassembler.cc, which writes to the output the
-- entries that come next.
use cs144_me.Prelude.{
  ℕ, ◌+◌, ◌-◌, ◌^◌, ◌≤◌, ◌<◌, ◌≡◌, refl, ap, sym, ◌∙◌, [], ◌∷◌, ◌++◌, length, arith, ltb, Bool,
  ◌||◌, ==_iff, ne→==_false, ◌≢◌, length-append,
}
use native.Mathlib.Decide.{ℕ_discrete}
use cs144_me.Prelude.Word.{sub_size}
use cs144_me.ByteStream
use cs144_me.ByteStream.{ByteStream, bytes_written}
use cs144_me.ByteStream.Inv.{IsValid, bytes_written_lem, write_fits}
use cs144_me.Reassembler.{Chunk, ChunkMap, first, flush}
use cs144_me.Reassembler.Slice.{slice, slice_cong, slice-append}
use cs144_me.Reassembler.Chunks.{Chunks, sizes, covers, first_lem, HeadPast, sizes_le}

-- The output holds the stream from the first byte that is not read, and the map what comes later.
pub record IsOutput (src : ℕ → ℕ) (cap hi : ℕ) (out : ByteStream) (n : ℕ) (m : ChunkMap)
    : Type 0 where
  pub valid : IsValid out
  pub capacity : out.capacity ≡ cap
  pub window : out.total_read + cap ≡ hi
  pub small : hi < 2 ^ 31
  pub bytes : out.buffer ≡ slice src out.total_read (length out.buffer)
  pub chunks : Chunks src hi out.written m
  pub count : n ≡ sizes m

-- Is the byte at index i of the stream kept or passed on already?
abbrev pub has : ByteStream → ChunkMap → ℕ → Bool
has out m i = ltb i out.written || covers m i

-- What the loop leaves.
pub record Flushed (src : ℕ → ℕ) (cap hi : ℕ) (out : ByteStream) (m : ChunkMap)
    (res : ByteStream × ℕ × ChunkMap) : Type 0 where
  pub output : IsOutput src cap hi res.0 res.1 res.2
  pub gap : HeadPast res.0.written res.2
  pub keeps : (i : ℕ) → has res.0 res.2 i ≡ has out m i
  pub read : res.0.total_read ≡ out.total_read
  pub ended : res.0.end ≡ out.end
  pub error : res.0.error_flag ≡ out.error_flag
  pub grows : out.written ≤ res.0.written

module _ (src : ℕ → ℕ) (cap hi : ℕ) where
  abbrev wrote : ByteStream → Chunk → ByteStream
  wrote out c = record out {
    buffer = out.buffer ++ c.bytes;
    written = out.written + length c.bytes;
  }

  module _ (out : ByteStream) (n : ℕ) (c : Chunk) (m : ChunkMap)
      (v : IsOutput src cap hi out n (c ∷ m)) where
    starts : first c ≡ c.last + 1 - length c.bytes
    starts = first_lem src c v.chunks.0 (omega (arith, v.small))

    module _ (next : out.written ≡ first c) where
      reach : out.written + length c.bytes ≡ c.last + 1
      reach = omega (arith, starts, v.chunks.0.room)

      write_lem : ByteStream.write out c.bytes ≡ (length c.bytes, wrote out c)
      write_lem =
          write_fits c.bytes v.valid
            (omega (arith, reach, v.chunks.0.below, v.window, v.capacity, v.valid.counted))
            (omega (arith, reach, v.chunks.0.below, v.small))

      wrote-IsOutput : IsOutput src cap hi (wrote out c) (sub_size n (length c.bytes)) m
      wrote-IsOutput = record {
        valid = record {
          small = v.valid.small;
          fits = omega (
            arith,
            reach,
            v.chunks.0.below,
            v.window,
            v.capacity,
            v.valid.counted,
            length-append out.buffer c.bytes,
          );
          counted = omega (arith, v.valid.counted, length-append out.buffer c.bytes);
          no_wrap = omega (arith, reach, v.chunks.0.below, v.small);
        };
        capacity = v.capacity;
        window = v.window;
        small = v.small;
        bytes =
            ap (λ l. l ++ c.bytes) v.bytes
            ∙ ap (λ l. slice src out.total_read (length out.buffer) ++ l)
                (v.chunks.0.bytes ∙ slice_cong src (omega (arith, reach, v.valid.counted)) refl)
            ∙ slice-append src out.total_read (length out.buffer) (length c.bytes)
            ∙ slice_cong src refl (sym (length-append out.buffer c.bytes));
        chunks = rw reach v.chunks.1;
        count = omega (
          arith,
          v.count,
          sizes_le src hi (omega (arith, v.small)) out.written (c ∷ m)
              (omega (arith, v.chunks.0.room, v.chunks.0.below, v.chunks.0.nonempty)) v.chunks,
        );
      }

      wrote-has : (i : ℕ) → has (wrote out c) m i ≡ has out (c ∷ m) i
      wrote-has i = ground (arith, reach)

      flush_step :
          {res : ByteStream × ℕ × ChunkMap}
          → Flushed src cap hi (wrote out c) m res
          → Flushed src cap hi out (c ∷ m) res
      flush_step f = record {
        output = f.output;
        gap = f.gap;
        keeps = λ i. f.keeps i ∙ wrote-has i;
        read = f.read;
        ended = f.ended;
        error = f.error;
        grows = omega (arith, f.grows);
      }

    stay : bytes_written out ≢ first c → Flushed src cap hi out (c ∷ m) (out, n, c ∷ m)
    stay ne = record {
      output = v;
      gap = omega (arith, ne, bytes_written_lem v.valid, starts, v.chunks.0.room);
      keeps = λ i. refl;
      read = refl;
      ended = refl;
      error = refl;
      grows = omega arith;
    }

pub flush_lem :
    (src : ℕ → ℕ) (cap hi : ℕ) (out : ByteStream) (n : ℕ) (m : ChunkMap)
    → IsOutput src cap hi out n m
    → Flushed src cap hi out m (flush out n m)
unfolding flush
flush_lem src cap hi out n [] v = record {
  output = v;
  gap = tt;
  keeps = λ i. refl;
  read = refl;
  ended = refl;
  error = refl;
  grows = omega arith;
}
flush_lem src cap hi out n (c ∷ m) v = elim (ℕ_discrete (bytes_written out) (first c)) [
  | yes e ↦
      let next = sym (bytes_written_lem v.valid) ∙ e in
      rw ((==_iff _ _).1 e, write_lem src cap hi out n c m v next)
        (flush_step src cap hi out n c m v next (
          flush_lem src cap hi (wrote src cap hi out c) (sub_size n (length c.bytes)) m
            (wrote-IsOutput src cap hi out n c m v next)))
  | no ne ↦ rw (ne→==_false _ _ ne) (stay src cap hi out n c m v ne)
]
