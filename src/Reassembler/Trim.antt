-- ===== src/Reassembler/Trim.antt =====
-- The cuts at the front and the back of AddTempCash of libsponge/stream_reassembler.cc.
use mathlib.Core.Path.{subst}
use cs144_me.Prelude.{
  ℕ, ◌+◌, ◌-◌, ◌^◌, ◌≤◌, ◌<◌, ◌≡◌, min, max, refl, ap, sym, ◌∙◌, List, none, some, length, arith,
  ltb, leb, Bool, true, false, ◌&&◌, ◌||◌, if◌then◌else◌,
}
use cs144_me.Prelude.Word.{is_negative, add_size, sub_size}
use cs144_me.Prelude.Result.{ok, ◌>>=◌}
use cs144_me.ByteStream.Inv.{bytes_written_lem, bytes_read_lem}
use cs144_me.Reassembler.{
  StreamReassembler, Piece, ChunkMap, window_end, overflow, trim_front, trim_back, add_piece,
  flushed, store, flush,
}
use cs144_me.Reassembler.Slice.{slice, slice_cong, take_run, substr_run}
use cs144_me.Reassembler.Chunks.{limit, sizes, covers, HeadPast}
use cs144_me.Reassembler.Store.{store_lem}
use cs144_me.Reassembler.Pieces.{IsPiece, within, Stored, with_map}
use cs144_me.Reassembler.Flush.{IsOutput, has, flush_lem}

-- The first index past the window.
abbrev pub window : StreamReassembler → ℕ
window r = r.output.total_read + r.capacity

pub record Inv (src : ℕ → ℕ) (r : StreamReassembler) : Type 0 where
  pub output : IsOutput src r.capacity (window r) r.output r.unassembled r.m
  pub gap : HeadPast r.output.written r.m

-- Is index i among the n from `index` on?
abbrev pub in_run : ℕ → ℕ → ℕ → Bool
in_run index n i = leb index i && ltb i (index + n)

module _ (src : ℕ → ℕ) (r : StreamReassembler) (v : Inv src r) where
  window_end_lem : 0 < window r → window_end r ≡ window r - 1
  window_end_lem h = ground (arith, bytes_read_lem v.output.valid, v.output.small)

  -- The test of the window is right for indices less than 2 ^ 31 past it.
  overflow_lem :
      (rb : ℕ) → rb ≤ window r + (2 ^ 31 - 1) → is_negative (overflow r rb) ≡ leb (window r) rb
  unfolding overflow
  overflow_lem rb h = ground (arith, bytes_read_lem v.output.valid, v.output.small)

  pub trim_front_lem :
      (bytes : List ℕ) (index : ℕ)
      → bytes ≡ slice src index (length bytes)
      → 0 < length bytes
      → index + length bytes ≤ limit
      → trim_front r bytes index
        ≡ ok (
            if leb (index + length bytes) r.output.written
            then none
            else some (record {
              lb = max index r.output.written;
              rb = index + length bytes - 1;
              bytes =
                  slice src
                    (max index r.output.written)
                    (index + length bytes - max index r.output.written);
            }))
  unfolding trim_front
  trim_front_lem bytes index e h k = ground (
    arith,
    bytes_written_lem v.output.valid,
    v.output.valid,
    v.output.small,
    substr_run src bytes index (length bytes) (sub_size r.output.written index) (length bytes)
        r.output.written (index + length bytes - r.output.written) e,
    slice_cong src {i = index} {j = max index r.output.written} {n = length bytes}
        {m = index + length bytes - max index r.output.written},
    slice_cong src {i = r.output.written} {j = max index r.output.written}
        {n = index + length bytes - r.output.written}
        {m = index + length bytes - max index r.output.written},
  )

  pub trim_back_lem :
      (p : Piece)
      → p.bytes ≡ slice src p.lb (p.rb + 1 - p.lb)
      → p.lb ≤ p.rb
      → p.rb < window r + 2 ^ 31
      → trim_back r p ≡ (
          if leb (window r) p.lb
          then none
          else some (record {
            lb = p.lb;
            rb = min p.rb (window r - 1);
            bytes = slice src p.lb (min p.rb (window r - 1) + 1 - p.lb);
          }))
  unfolding trim_back
  trim_back_lem p e h k = ground (
    arith,
    overflow_lem p.lb,
    overflow_lem p.rb,
    window_end_lem,
    v.output.small,
    take_run src p.bytes p.lb (p.rb + 1 - p.lb) (add_size (sub_size (window_end r) p.lb) 1)
        (min p.rb (window r - 1) + 1 - p.lb) e,
    slice_cong src {i = p.lb} {n = p.rb + 1 - p.lb} {m = min p.rb (window r - 1) + 1 - p.lb} refl,
  )

or_absorb : (a b : Bool) → (b ≡ true → a ≡ true) → a ≡ (a || b)
or_absorb true b h = refl
or_absorb false true h = h refl
or_absorb false false h = refl

or_assoc : (a b c : Bool) → (a || (b || c)) ≡ ((a || b) || c)
or_assoc true b c = refl
or_assoc false b c = refl

-- The bytes that a substring adds: those inside the window.
abbrev pub adds : StreamReassembler → ℕ → ℕ → ℕ → Bool
adds r index n i = in_run index n i && ltb i (window r)

-- What a push does to the state, but for the end of the stream.
pub record Pushed (src : ℕ → ℕ) (r : StreamReassembler) (new_bytes : ℕ → Bool)
    (r' : StreamReassembler) : Type 0 where
  pub inv : Inv src r'
  pub keeps : (i : ℕ) → has r'.output r'.m i ≡ (has r.output r.m i || new_bytes i)
  pub read : r'.output.total_read ≡ r.output.total_read
  pub capacity : r'.capacity ≡ r.capacity
  pub ended : r'.output.end ≡ r.output.end
  pub error : r'.output.error_flag ≡ r.output.error_flag
  pub end_idx : r'.end_idx ≡ r.end_idx
  pub grows : r.output.written ≤ r'.output.written

module _ (src : ℕ → ℕ) (r : StreamReassembler) (v : Inv src r) where
  pub unchanged :
      (f : ℕ → Bool) → ((i : ℕ) → f i ≡ true → has r.output r.m i ≡ true) → Pushed src r f r
  unchanged f h = record {
    inv = v;
    keeps = λ i. or_absorb _ _ (h i);
    read = refl;
    capacity = refl;
    ended = refl;
    error = refl;
    end_idx = refl;
    grows = omega arith;
  }

  Stored-IsOutput :
      (p : Piece) (m' : ChunkMap)
      → Stored src (window r) r.output.written r p (store r p) m'
      → IsOutput src r.capacity (window r) r.output (sizes m') m'
  Stored-IsOutput p m' s = record {
    valid = v.output.valid;
    capacity = v.output.capacity;
    window = refl;
    small = v.output.small;
    bytes = v.output.bytes;
    chunks = s.chunks;
    count = refl;
  }

  flushed-Pushed :
      (p : Piece) (m' : ChunkMap) (f : ℕ → Bool)
      → Stored src (window r) r.output.written r p (store r p) m'
      → ((i : ℕ) → (has r.output r.m i || within p i) ≡ (has r.output r.m i || f i))
      → Pushed src r f (flushed (with_map r m'))
  unfolding flushed
  flushed-Pushed p m' f s same =
      let w = flush_lem src r.capacity (window r) r.output (sizes m') m' (Stored-IsOutput p m' s) in
      record {
        inv = record {
          output =
              subst
                (λ h.
                  IsOutput src r.capacity h (flush r.output (sizes m') m').0
                    (flush r.output (sizes m') m').1 (flush r.output (sizes m') m').2)
                (ap (λ k. k + r.capacity) (sym w.read)) w.output;
          gap = w.gap;
        };
        keeps = λ i.
            w.keeps i
            ∙ ap (λ b. ltb i r.output.written || b) (s.holds i)
            ∙ or_assoc (ltb i r.output.written) (covers r.m i) (within p i)
            ∙ same i;
        read = w.read;
        capacity = refl;
        ended = w.ended;
        error = w.error;
        end_idx = refl;
        grows = w.grows;
      }

  pub add_piece_lem :
      (p : Piece) (f : ℕ → Bool)
      → IsPiece src (window r) r.output.written p
      → ((i : ℕ) → (has r.output r.m i || within p i) ≡ (has r.output r.m i || f i))
      → (r' : StreamReassembler) × (add_piece r (some p) ≡ ok r') × Pushed src r f r'
  unfolding add_piece
  add_piece_lem p f q same =
      let (m', s) =
        store_lem src (window r) r.output.written r p (omega (arith, v.output.small))
          v.output.chunks v.output.count q in
      (
        flushed (with_map r m'),
        ap (λ x. x >>= λ r'. ok (flushed r')) s.result,
        flushed-Pushed p m' f s same,
      )
