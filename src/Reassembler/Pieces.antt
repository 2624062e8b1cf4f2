-- ===== src/Reassembler/Pieces.antt =====
-- The piece that AddTempCash of libsponge/stream_reassembler.cc stores, and what storing it does.
use cs144_me.Prelude.{
  ℕ, ◌+◌, ◌-◌, ◌^◌, ◌≤◌, ◌<◌, ◌≡◌, min, max, List, ◌∷◌, length, arith, leb, Bool, true, false, ◌&&◌,
  ◌||◌,
}
use cs144_me.Prelude.Word.{add_size, sub_size}
use cs144_me.Prelude.Result.{Result, ok}
use cs144_me.Reassembler.{StreamReassembler, Piece, Chunk, ChunkMap, combine}
use cs144_me.Reassembler.Slice.{slice, combine-slice}
use cs144_me.Reassembler.Chunks.{limit, Chunks, sizes, covers}

module _ (src : ℕ → ℕ) (hi : ℕ) where
  -- A run of the stream below hi, from lo on.
  pub record IsPiece (lo : ℕ) (p : Piece) : Type 0 where
    pub start : lo ≤ p.lb
    pub order : p.lb ≤ p.rb
    pub below : p.rb < hi
    pub bytes : p.bytes ≡ slice src p.lb (p.rb + 1 - p.lb)

-- Is the index in the piece?
abbrev pub within : Piece → ℕ → Bool
within p i = leb p.lb i && leb i p.rb

-- The map and the count after a piece is stored.
abbrev pub with_map : StreamReassembler → ChunkMap → StreamReassembler
with_map r m = record r { m = m; unassembled = sizes m }

-- What storing a piece does, from the map before it.
pub record Stored (src : ℕ → ℕ) (hi lo : ℕ) (r : StreamReassembler) (p : Piece)
    (out : Result StreamReassembler) (m' : ChunkMap) : Type 0 where
  pub result : out ≡ ok (with_map r m')
  pub chunks : Chunks src hi lo m'
  pub holds : (i : ℕ) → covers m' i ≡ (covers r.m i || within p i)

pub combine_runs :
    (src : ℕ → ℕ) (s t : List ℕ) (a n b m i k : ℕ)
    → s ≡ slice src a n
    → t ≡ slice src b m
    → a ≤ b + m
    → b ≤ a + n
    → a + n < 2 ^ 63
    → b + m < 2 ^ 63
    → i ≡ min a b
    → k ≡ max (a + n) (b + m) - min a b
    → combine s t a b ≡ ok (slice src i k)
combine_runs src s t a n b m i k p q h h' l l' e f =
    rw (p, q, e, f) (combine-slice src a n b m h h' l l')

pub count_lem :
    (b o r n low high t len s : ℕ)
    → n ≡ b + (o + r)
    → t ≡ o
    → low ≤ high
    → high < limit
    → len ≡ high + 1 - low
    → s ≡ b + (len + r)
    → b + (o + r) ≤ limit
    → sub_size (add_size n (add_size (sub_size high low) 1)) t ≡ s
count_lem b o r n low high t len s h1 h2 h3 h4 h5 h6 h7 = omega arith

pub covers_self :
    (c : Chunk) (m : ChunkMap) (i : ℕ)
    → c.last + 1 - length c.bytes ≤ i
    → i ≤ c.last
    → covers (c ∷ m) i ≡ true
covers_self c m i h k = ground arith

-- A run that joins a piece with entries, of which one ends and one begins within its reach, holds
-- what they hold.
pub run_union :
    (fs fl es el lb rb i : ℕ) (b : Bool)
    → lb ≤ rb
    → lb ≤ fl
    → fl ≤ el
    → fs ≤ es
    → es ≤ rb
    → (b ≡ true → (fs ≤ i) × (i ≤ el))
    → (fs ≤ i → i ≤ fl → b ≡ true)
    → (es ≤ i → i ≤ el → b ≡ true)
    → (leb (min lb fs) i && leb i (max rb el)) ≡ (b || (leb lb i && leb i rb))
run_union fs fl es el lb rb i true h1 h2 h3 h4 h5 f g k = ground arith
run_union fs fl es el lb rb i false h1 h2 h3 h4 h5 f g k = ground arith
