-- ===== src/Reassembler.antt =====
-- libsponge/stream_reassembler.hh and stream_reassembler.cc: out-of-order substrings of a stream,
-- kept in a std::map from the index of the last byte to the bytes, and written in order.
pub mod Slice
pub mod Chunks
pub mod Store
pub mod Pieces
pub mod Flush
pub mod Push
pub mod Trim
pub mod Spec
pub mod Substring
use cs144_me.Prelude.{
  ℕ, ◌+◌, ◌-◌, ◌^◌, min, max, Bool, true, false, ◌&&◌, List, [], ◌∷◌, ◌++◌, Option, none, some,
  length, take, ltb, leb, ◌==◌, if◌then◌else◌,
}
use cs144_me.Prelude.Word.{add_size, sub_size, int_of_size, is_negative}
use cs144_me.Prelude.Result.{Result, ok, throw, ◌>>=◌}
use cs144_me.ByteStream
use cs144_me.ByteStream.{ByteStream, bytes_written, bytes_read, substr}

-- An entry of the map: its key and its value.
pub record Chunk : Type 0 where
  pub last : ℕ
  pub bytes : List ℕ

-- `it->first - it->second.size() + 1`
abbrev pub first : Chunk → ℕ
first c = add_size (sub_size c.last (length c.bytes)) 1

-- The entries in the order of their keys.
abbrev pub ChunkMap : Type 0
ChunkMap = List Chunk

pub record StreamReassembler : Type 0 where
  pub output : ByteStream
  pub capacity : ℕ
  pub unassembled : ℕ
  pub m : ChunkMap
  pub end_idx : ℕ

-- SIZE_MAX
abbrev pub size_max : ℕ
size_max = 2 ^ 64 - 1

unfoldable pub new : ℕ → StreamReassembler
new capacity = record {
  output = ByteStream.new capacity;
  capacity = capacity;
  unassembled = 0;
  m = [];
  end_idx = size_max;
}

unfoldable pub unassembled_bytes : StreamReassembler → ℕ
unassembled_bytes r = r.unassembled

unfoldable pub empty : StreamReassembler → Bool
empty r = r.unassembled == 0

-- The last index that the window holds, as the size_t expression computes it.
abbrev pub window_end : StreamReassembler → ℕ
window_end r = sub_size (add_size (bytes_read r.output) r.capacity) 1

-- The size_t difference, cut to an int.
unfoldable pub overflow : StreamReassembler → ℕ → ℕ
overflow r rb = int_of_size (sub_size (window_end r) rb)

-- `combine`: two strings that start at the two indices and leave no hole, in one.
unfoldable pub join : List ℕ → List ℕ → ℕ → ℕ → Result (List ℕ)
join left right in1 in2 =
    if leb (add_size in2 (length right)) (add_size in1 (length left)) then ok left else do
      rest ← substr right (sub_size (add_size in1 (length left)) in2) (length right)
      ok (left ++ rest)

unfoldable pub combine : List ℕ → List ℕ → ℕ → ℕ → Result (List ℕ)
combine s1 s2 index1 index2 =
    if ltb index1 index2 then join s1 s2 index1 index2 else join s2 s1 index2 index1

-- `m.lower_bound(lb)`: the entries before the iterator, and those from it on.
unfoldable pub split_at : ℕ → ChunkMap → ChunkMap × ChunkMap
split_at lb [] = ([], [])
split_at lb (c ∷ m) =
    let (before, after) = split_at lb m in
    if ltb c.last lb then (c ∷ before, after) else ([], c ∷ m)

-- The `while` loop over the entries that begin at or before rb: those it passes, and the others.
unfoldable pub overlaps : ℕ → ChunkMap → ChunkMap × ChunkMap
overlaps rb [] = ([], [])
overlaps rb (c ∷ m) =
    let (passed, others) = overlaps rb m in
    if leb (first c) rb then (c ∷ passed, others) else ([], c ∷ m)

-- `ecount` after the loop.
unfoldable pub total_size : ChunkMap → ℕ
total_size [] = 0
total_size (c ∷ m) = add_size (length c.bytes) (total_size m)

-- `eit` after the loop.
unfoldable pub last_of : Chunk → ChunkMap → Chunk
last_of c [] = c
last_of c (d ∷ m) = last_of d m

-- `m[key] = bytes`
unfoldable pub assign : ℕ → List ℕ → ChunkMap → ChunkMap
assign key bytes [] = record { last = key; bytes = bytes } ∷ []
assign key bytes (c ∷ m) =
    let rest = assign key bytes m in
    if ltb key c.last
    then record { last = key; bytes = bytes } ∷ (c ∷ m)
    else if key == c.last
    then record { last = key; bytes = bytes } ∷ m
    else c ∷ rest

-- The part of `data` that is left to store: the indices of its ends, and its bytes.
pub record Piece : Type 0 where
  pub lb : ℕ
  pub rb : ℕ
  pub bytes : List ℕ

-- Cuts off what the output has already; `none` is the early return.
unfoldable pub trim_front : StreamReassembler → List ℕ → ℕ → Result (Option Piece)
trim_front r bytes index =
    let written : ℕ = bytes_written r.output in
    let rb : ℕ = sub_size (add_size index (length bytes)) 1 in
    if ltb index written
    then if ltb rb written then ok none else (do
      d ← substr bytes (sub_size written index) (length bytes)
      ok (some (record { lb = written; rb = rb; bytes = d })))
    else ok (some (record { lb = index; rb = rb; bytes = bytes }))

-- Cuts off what lies past the window; `none` is the early return.
unfoldable pub trim_back : StreamReassembler → Piece → Option Piece
unfolding overflow
trim_back r p =
    if is_negative (overflow r p.rb)
    then if is_negative (overflow r p.lb)
      then none
      else (let rb : ℕ = window_end r in
          some
            (record { lb = p.lb; rb = rb; bytes = take (add_size (sub_size rb p.lb) 1) p.bytes }))
    else some p

-- The branch that stores a piece between the entries, with none overlapping.
unfoldable pub store_alone : StreamReassembler → Piece → StreamReassembler
store_alone r p = record r {
  m = assign p.rb p.bytes r.m;
  unassembled = add_size r.unassembled (add_size (sub_size p.rb p.lb) 1);
}

-- The branch that joins the piece with the entries from `fit` to `eit`, which it replaces.
unfoldable pub store_merged :
    StreamReassembler → Piece → ChunkMap → Chunk → ChunkMap → ChunkMap → Result StreamReassembler
store_merged r p before fit more rest = do
  let eit = last_of fit more
  let low = min p.lb (first fit)
  let high = max p.rb eit.last
  let icount = add_size (sub_size high low) 1
  let ecount = total_size (fit ∷ more)
  ins1 ← combine fit.bytes p.bytes (first fit) p.lb
  ins ← combine eit.bytes ins1 (first eit) low
  ok (record r {
    m = assign high ins (before ++ rest);
    unassembled = sub_size (add_size r.unassembled icount) ecount;
  })

-- What follows once the entries overlapping the piece are known.
unfoldable pub store_between :
    StreamReassembler → Piece → ChunkMap → ChunkMap → ChunkMap → Result StreamReassembler
store_between r p before [] rest = ok (store_alone r p)
store_between r p before (fit ∷ more) rest = store_merged r p before fit more rest

unfoldable pub store : StreamReassembler → Piece → Result StreamReassembler
store r p =
    let (before, after) = split_at p.lb r.m in
    let (passed, rest) = overlaps p.rb after in store_between r p before passed rest

-- The last `while` loop: writes the entries that come next in the output.
unfoldable pub flush : ByteStream → ℕ → ChunkMap → ByteStream × ℕ × ChunkMap
flush out unassembled [] = (out, unassembled, [])
flush out unassembled (c ∷ m) =
    let (n, out') = ByteStream.write out c.bytes in
    let rest = flush out' (sub_size unassembled (length c.bytes)) m in
    if bytes_written out == first c then rest else (out, unassembled, c ∷ m)

unfoldable pub flushed : StreamReassembler → StreamReassembler
flushed r =
    let (out, unassembled, m) = flush r.output r.unassembled r.m in
    record r { output = out; unassembled = unassembled; m = m }

-- The rest of AddTempCash, once the front is cut.
unfoldable pub add_piece : StreamReassembler → Option Piece → Result StreamReassembler
add_piece r none = ok r
add_piece r (some p) = do r' ← store r p; ok (flushed r')

abbrev trim_back_of : StreamReassembler → Option Piece → Option Piece
trim_back_of r none = none
trim_back_of r (some p) = trim_back r p

-- AddTempCash. The string of map bounds that it builds for debugging has no effect.
unfoldable pub add_temp_cash : StreamReassembler → List ℕ → ℕ → Result StreamReassembler
add_temp_cash r [] index = ok r
add_temp_cash r (b ∷ bytes) index = do
  front ← trim_front r (b ∷ bytes) index
  add_piece r (trim_back_of r front)

unfoldable pub push_substring : StreamReassembler → List ℕ → ℕ → Bool → Result StreamReassembler
push_substring r bytes index eof = do
  let marked = if eof then record r { end_idx = add_size index (length bytes) } else r
  r' ← add_temp_cash marked bytes index
  ok (
      if bytes_written r'.output == r'.end_idx
      then record r' { output = ByteStream.end_input r'.output }
      else r')
