-- ===== src/Reassembler/Substring.antt =====
-- push_substring of libsponge/stream_reassembler.cc on one substring.
use cs144_me.Prelude.{
  ℕ, ◌+◌, ◌^◌, ◌≤◌, ◌<◌, ◌≡◌, refl, ap, ◌∙◌, List, [], ◌∷◌, length, arith, ◌==◌, Bool, true, false,
  ◌||◌, if◌then◌else◌,
}
use cs144_me.Prelude.Word.{add_size}
use cs144_me.Prelude.Result.{ok}
use cs144_me.ByteStream.{bytes_written, end_input}
use cs144_me.ByteStream.Inv.{bytes_written_lem}
use cs144_me.Reassembler.{StreamReassembler, ChunkMap, push_substring}
use cs144_me.Reassembler.Slice.{slice}
use cs144_me.Reassembler.Chunks.{limit, Chunks, covers, covers_bounds, HeadPast, first_lem}
use cs144_me.Reassembler.Flush.{IsOutput, has}
use cs144_me.Reassembler.Push.{marked, marked-Inv, add_temp_cash_lem}
use cs144_me.Reassembler.Trim.{window, Inv, adds, Pushed}

-- The state after a push, from the state before it.
pub record AfterPush (src : ℕ → ℕ) (r : StreamReassembler) (index n : ℕ) (eof : Bool)
    (r' : StreamReassembler) : Type 0 where
  pub inv : Inv src r'
  pub keeps : (i : ℕ) → has r'.output r'.m i ≡ (has r.output r.m i || adds r index n i)
  pub read : r'.output.total_read ≡ r.output.total_read
  pub capacity : r'.capacity ≡ r.capacity
  pub error : r'.output.error_flag ≡ r.output.error_flag
  pub grows : r.output.written ≤ r'.output.written
  pub end_idx : r'.end_idx ≡ (if eof then add_size index n else r.end_idx)
  pub ended : r'.output.end ≡ (r'.output.written == r'.end_idx || r.output.end)

-- The state with the output ended if b says so, as push_substring ends.
abbrev ended_if : StreamReassembler → Bool → StreamReassembler
ended_if r b = record r { output = record (r.output) { end = b || r.output.end } }

ended_if_lem :
    (r : StreamReassembler) (b : Bool)
    → (if b then record r { output = end_input r.output } else r) ≡ ended_if r b
unfolding end_input
ended_if_lem r true = refl
ended_if_lem r false = refl

marked_lem :
    (r : StreamReassembler) (index n : ℕ) (eof : Bool)
    → (if eof then record r { end_idx = add_size index n } else r) ≡ marked r index n eof
marked_lem r index n true = refl
marked_lem r index n false = refl

ended_if-AfterPush :
    (src : ℕ → ℕ) (r : StreamReassembler) (index n : ℕ) (eof : Bool) (r' : StreamReassembler)
    → Pushed src (marked r index n eof) (adds r index n) r'
    → AfterPush src r index n eof (ended_if r' (bytes_written r'.output == r'.end_idx))
ended_if-AfterPush src r index n eof r' w = record {
  inv = record {
    output = record {
      valid = record {
        small = o.valid.small;
        fits = o.valid.fits;
        counted = o.valid.counted;
        no_wrap = o.valid.no_wrap;
      };
      capacity = o.capacity;
      window = refl;
      small = o.small;
      bytes = o.bytes;
      chunks = o.chunks;
      count = o.count;
    };
    gap = w.inv.gap;
  };
  keeps = w.keeps;
  read = w.read;
  capacity = w.capacity;
  error = w.error;
  grows = w.grows;
  end_idx = w.end_idx;
  ended =
      ap (λ k. (k == r'.end_idx) || r'.output.end) (bytes_written_lem o.valid)
      ∙ ap (λ b. (r'.output.written == r'.end_idx) || b) w.ended;
}
  where
    o : IsOutput src r'.capacity (window r') r'.output r'.unassembled r'.m
    o = w.inv.output

-- Take a state that keeps only bytes of the stream, and a substring of that stream that ends less
-- than 2 ^ 31 past the window. push_substring throws nothing and keeps only bytes of the stream;
-- the indices kept or written are those from before and those of the substring inside the window;
-- what is written has no gap, and none of the rest could be written; the output is ended exactly
-- if it was or if all bytes up to the end are written; nothing else changes.
pub push_substring_lem :
    (src : ℕ → ℕ) (r : StreamReassembler) (bytes : List ℕ) (index : ℕ) (eof : Bool)
    → Inv src r
    → bytes ≡ slice src index (length bytes)
    → index + length bytes ≤ window r + 2 ^ 31
    → (r' : StreamReassembler) × (push_substring r bytes index eof ≡ ok r')
      × AfterPush src r index (length bytes) eof r'
unfolding push_substring
push_substring_lem src r bytes index eof v e h =
    let (r', q, w) =
      add_temp_cash_lem src (marked r index (length bytes) eof)
        (marked-Inv src r index (length bytes) eof v) bytes index e h in
    (
      ended_if r' (bytes_written r'.output == r'.end_idx),
      rw (
        marked_lem r index (length bytes) eof,
        q,
        ended_if_lem r' (bytes_written r'.output == r'.end_idx),
      ),
      ended_if-AfterPush src r index (length bytes) eof r' w,
    )

past_covers :
    (src : ℕ → ℕ) (hi written : ℕ) (m : ChunkMap)
    → hi ≤ limit
    → Chunks src hi written m
    → HeadPast written m
    → covers m written ≡ false
past_covers src hi written [] small ch gap = refl
past_covers src hi written (c ∷ m) small ch gap = ground (
  arith,
  first_lem src c ch.0 small,
  ch.0.room,
  covers_bounds src hi small (c.last + 1) m written ch.1,
)

-- In such a state the byte that the output waits for was never kept, and every byte before it was:
-- the count of written bytes is the first index that is missing.
pub next_missing :
    (src : ℕ → ℕ) (r : StreamReassembler)
    → Inv src r
    → (has r.output r.m r.output.written ≡ false)
      × ((i : ℕ) → i < r.output.written → has r.output r.m i ≡ true)
next_missing src r v = (
  ground (
    arith,
    past_covers src (window r) r.output.written r.m (omega (arith, v.output.small)) v.output.chunks
        v.gap,
  ),
  λ i h. ground arith,
)
