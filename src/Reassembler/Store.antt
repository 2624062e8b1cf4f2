-- ===== src/Reassembler/Store.antt =====
-- The part of AddTempCash of libsponge/stream_reassembler.cc that stores a piece in the map.
use cs144_me.Prelude.{
  ℕ, suc, ◌+◌, ◌-◌, ◌%◌, ◌^◌, ◌≤◌, ◌<◌, ◌≡◌, min, max, refl, ap, sym, ◌∙◌, [], ◌∷◌, ◌++◌, length,
  arith, leb, ◌&&◌, ◌||◌,
}
use mathlib.Core.Path.{subst}
use cs144_me.Prelude.Word.{add_size, sub_size}
use cs144_me.Prelude.Result.{ok}
use cs144_me.Reassembler.{
  StreamReassembler, Piece, Chunk, ChunkMap, first, split_at, last_of, assign, total_size, combine,
  store, store_alone, store_merged, store_between,
}
use cs144_me.Reassembler.Slice.{slice, length-slice, slice_cong}
use cs144_me.Reassembler.Chunks.{
  limit, IsChunk, Chunks, ends, sizes, covers, sizes-append, covers-append, first_lem,
  Chunks-append, Chunks-front, Chunks-back, AllBelow, HeadFrom, AllStart, HeadPast, split_at_lem,
  overlaps_lem, AllBelow-mono, ends_le, assign_between, Chunks_past, sizes_le, total_size_lem,
  covers_bounds, last_of-IsChunk, last_of-AllStart, covers-last_of,
}
use cs144_me.Reassembler.Pieces.{
  IsPiece, Stored, combine_runs, count_lem, covers_self, run_union, within,
}

module _ (src : ℕ → ℕ) (hi lo : ℕ) (small : hi ≤ limit) (r : StreamReassembler) (p : Piece)
    (v : IsPiece src hi lo p) (count : r.unassembled ≡ sizes r.m) where
  abbrev chunk_of : ℕ → ℕ → Chunk
  chunk_of low high = record { last = high; bytes = slice src low (high + 1 - low) }

  chunk_of-IsChunk :
      (start low high : ℕ)
      → start ≤ low
      → low ≤ high
      → high < hi
      → IsChunk src hi start (chunk_of low high)
  chunk_of-IsChunk start low high h k l = record {
    nonempty = omega (arith, length-slice src low (high + 1 - low));
    room = omega (arith, length-slice src low (high + 1 - low));
    below = l;
    bytes = rw (length-slice src low (high + 1 - low)) (slice_cong src (omega arith) refl);
  }

  covers-chunk_of :
      (low high i : ℕ) → low ≤ high → covers (chunk_of low high ∷ []) i ≡ (leb low i && leb i high)
  covers-chunk_of low high i h = ground (arith, length-slice src low (high + 1 - low))

  alone_lem :
      (before after : ChunkMap)
      → r.m ≡ before ++ after
      → Chunks src hi lo (before ++ after)
      → AllBelow p.lb before
      → HeadPast p.rb after
      → Stored src hi lo r p (ok (store_alone r p)) (before ++ (chunk_of p.lb p.rb ∷ after))
  unfolding store_alone
  alone_lem before after e ch below past = record {
    result = ground (arith, v.bytes, assigned, counted);
    chunks = Chunks-append src hi lo before _ (Chunks-front src hi lo before after ch) (
      chunk_of-IsChunk (ends lo before) p.lb p.rb (ends_le lo p.lb before v.start below) v.order
          v.below,
      (past_chunks (p.rb + 1) (omega arith)).0,
    );
    holds = λ i. ground (
      arith,
      e,
      covers-append before (new ∷ after) i,
      covers-append before after i,
      length-slice src p.lb (p.rb + 1 - p.lb),
      v.order,
    );
  }
    where
      new : Chunk
      new = chunk_of p.lb p.rb

      upto : ends lo before ≤ p.lb
      upto = ends_le lo p.lb before v.start below

      past_chunks : (t : ℕ) → t ≤ p.rb + 1 → Chunks src hi t after × HeadFrom t after
      past_chunks t h =
          Chunks_past src hi small (ends lo before) p.rb t after (omega arith)
            (Chunks-back src hi lo before after ch) past

      assigned : assign p.rb p.bytes r.m ≡ before ++ (new ∷ after)
      assigned =
          rw (e, v.bytes)
            (assign_between p.rb _ before after (AllBelow-mono before v.order below)
              (past_chunks (suc p.rb) (omega arith)).1)

      counted :
          (r.unassembled + ((p.rb + (2 ^ 64 - p.lb)) % 2 ^ 64 + 1) % 2 ^ 64) % 2 ^ 64
          ≡ sizes (before ++ (new ∷ after))
      counted = omega (
        arith,
        count,
        ap sizes e,
        sizes-append before after,
        sizes-append before (new ∷ after),
        length-slice src p.lb (p.rb + 1 - p.lb),
        sizes_le src hi small lo (before ++ after) (omega (arith, v.start, v.below, v.order)) ch,
        v.order,
        v.below,
      )

  module _ (before : ChunkMap) (fit : Chunk) (more rest : ChunkMap)
      (e : r.m ≡ before ++ (fit ∷ more ++ rest))
      (ch : Chunks src hi lo (before ++ (fit ∷ more ++ rest))) (below : AllBelow p.lb before)
      (from : p.lb ≤ fit.last) (starts : AllStart p.rb (fit ∷ more))
      (past : HeadPast p.rb rest) where
    abbrev base : ℕ
    base = ends lo before

    abbrev eit : Chunk
    eit = last_of fit more

    -- The ends of the entry that replaces those from `fit` to `eit`.
    abbrev low : ℕ
    low = min p.lb (first fit)

    abbrev high : ℕ
    high = max p.rb eit.last

    middle : Chunks src hi base (fit ∷ more)
    middle =
        Chunks-front src hi base (fit ∷ more) rest
          (Chunks-back src hi lo before (fit ∷ more ++ rest) ch)

    others : Chunks src hi (ends base (fit ∷ more)) rest
    others =
        Chunks-back src hi base (fit ∷ more) rest
          (Chunks-back src hi lo before (fit ∷ more ++ rest) ch)

    -- Where the entries stand, for the arithmetic.
    record Layout : Type 0 where
      fit_first : first fit ≡ fit.last + 1 - length fit.bytes
      fit_room : base + length fit.bytes ≤ fit.last + 1
      fit_some : 0 < length fit.bytes
      fit_start : first fit ≤ p.rb
      eit_first : first eit ≡ eit.last + 1 - length eit.bytes
      eit_room : base + length eit.bytes ≤ eit.last + 1
      eit_some : 0 < length eit.bytes
      eit_below : eit.last < hi
      eit_start : first eit ≤ p.rb
      eit_ends : ends base (fit ∷ more) ≡ eit.last + 1
      fit_eit : fit.last ≤ eit.last
      fit_low : first fit ≤ first eit
      base_le : base ≤ p.lb

    layout : Layout
    layout =
        let (c, en, le, st) = last_of-IsChunk src hi base fit more middle in
        let f = first_lem src fit middle.0 small in
        let g = first_lem src eit c small in
        record {
          fit_first = f;
          fit_room = middle.0.room;
          fit_some = middle.0.nonempty;
          fit_start = starts.0;
          eit_first = g;
          eit_room = c.room;
          eit_some = c.nonempty;
          eit_below = c.below;
          eit_start = last_of-AllStart p.rb fit more starts;
          eit_ends = en;
          fit_eit = le;
          fit_low = omega (arith, middle.0.room, c.room);
          base_le = ends_le lo p.lb before v.start below;
        }

    joined_one :
        combine fit.bytes p.bytes (first fit) p.lb
        ≡ ok (slice src low (max (fit.last + 1) (p.rb + 1) - low))
    joined_one =
        let l = layout in
        combine_runs src fit.bytes p.bytes (first fit) (length fit.bytes) p.lb (p.rb + 1 - p.lb) low
          _ (middle.0.bytes ∙ slice_cong src (sym l.fit_first) refl) v.bytes
          (omega (arith, v.order, l.fit_start)) (omega (arith, l.fit_first, l.fit_room, from))
          (omega (arith, l.fit_first, l.fit_room, l.fit_eit, l.eit_below))
          (omega (arith, v.order, v.below)) (omega arith)
          (omega (arith, v.order, l.fit_first, l.fit_room))

    joined_two :
        combine eit.bytes (slice src low (max (fit.last + 1) (p.rb + 1) - low)) (first eit) low
        ≡ ok (slice src low (high + 1 - low))
    joined_two =
        let l = layout in
        combine_runs src eit.bytes _ (first eit) (length eit.bytes) low
          (max (fit.last + 1) (p.rb + 1) - low) low (high + 1 - low)
          ((last_of-IsChunk src hi base fit more middle).0.bytes
            ∙ slice_cong src (sym l.eit_first) refl)
          refl (omega (arith, v.order, l.fit_start, l.eit_start))
          (omega (arith, l.eit_first, l.eit_room, from, l.fit_eit))
          (omega (arith, l.eit_first, l.eit_room, l.eit_below))
          (omega (arith, v.order, v.below, l.fit_eit, l.eit_below, l.fit_first))
          (omega (arith, l.fit_low))
          (omega (arith, v.order, l.eit_first, l.eit_room, l.fit_eit, l.fit_start))

    abbrev new : Chunk
    new = chunk_of low high

    fits : (base ≤ low) × (low ≤ high) × (high < hi)
    fits =
        let l = layout in
        omega (
          arith, v.order, v.below, l.base_le, l.fit_first, l.fit_room, l.fit_eit, l.eit_below,
          l.fit_some,
        )

    past_chunks : (t : ℕ) → t ≤ high + 1 → Chunks src hi t rest × HeadFrom t rest
    past_chunks t h =
        let l = layout in
        Chunks_past src hi small (ends base (fit ∷ more)) p.rb t rest (omega (arith, l.eit_ends))
          others past

    from_first : Chunks src hi (first fit) (fit ∷ more)
    from_first =
        let l = layout in
        (
          record {
            nonempty = middle.0.nonempty;
            room = omega (arith, l.fit_first, l.fit_room);
            below = middle.0.below;
            bytes = middle.0.bytes;
          },
          middle.1,
        )

    merged_covers : (i : ℕ) → covers (new ∷ []) i ≡ (covers (fit ∷ more) i || within p i)
    merged_covers i =
        let l = layout in
        covers-chunk_of low high i fits.1
        ∙ run_union (first fit) fit.last (first eit) eit.last p.lb p.rb i (covers (fit ∷ more) i)
            v.order from l.fit_eit l.fit_low l.eit_start
            (λ h.
              let b = covers_bounds src hi small (first fit) (fit ∷ more) i from_first h in
              (b.0, omega (arith, b.1, l.eit_ends)))
            (λ h k. covers_self fit more i (omega (arith, l.fit_first)) k)
            (λ h k. covers-last_of fit more i (covers_self eit [] i (omega (arith, l.eit_first)) k))

    assigned :
        assign high (slice src low (high + 1 - low)) (before ++ rest) ≡ before ++ (new ∷ rest)
    assigned =
        assign_between high _ before rest (AllBelow-mono before (omega (arith, v.order)) below)
          (past_chunks (suc high) (omega arith)).1

    counted :
        sub_size (add_size r.unassembled (add_size (sub_size high low) 1)) (total_size (fit ∷ more))
        ≡ sizes (before ++ (new ∷ rest))
    counted =
        let l = layout in
        count_lem (sizes before) (sizes (fit ∷ more)) (sizes rest) r.unassembled low high
          (total_size (fit ∷ more)) (length new.bytes) (sizes (before ++ (new ∷ rest)))
          (count
            ∙ ap sizes e
            ∙ sizes-append before (fit ∷ more ++ rest)
            ∙ ap (λ k. sizes before + k) (sizes-append (fit ∷ more) rest))
          (total_size_lem src hi small base (fit ∷ more)
            (omega (arith, l.base_le, v.order, v.below)) middle)
          fits.1 (omega (arith, fits.2)) (length-slice src low (high + 1 - low))
          (sizes-append before (new ∷ rest))
          (omega (
            arith,
            sizes_le src hi small lo (before ++ (fit ∷ more ++ rest))
                (omega (arith, v.start, v.below, v.order)) ch,
            sizes-append before (fit ∷ more ++ rest),
            sizes-append (fit ∷ more) rest,
          ))

    merged_lem :
        Stored src hi lo r p (store_merged r p before fit more rest) (before ++ (new ∷ rest))
    unfolding store_merged
    merged_lem = record {
      result = rw (joined_one, joined_two, assigned, counted);
      chunks =
          Chunks-append src hi lo before _ (Chunks-front src hi lo before (fit ∷ more ++ rest) ch) (
            chunk_of-IsChunk base low high fits.0 fits.1 fits.2,
            (past_chunks (high + 1) (omega arith)).0,
          );
      holds = λ i. ground (
        arith,
        e,
        covers-append before (new ∷ rest) i,
        covers-append (new ∷ []) rest i,
        covers-append before (fit ∷ more ++ rest) i,
        covers-append (fit ∷ more) rest i,
        merged_covers i,
      );
    }

-- Both branches, once the entries that overlap the piece are split off.
store_between_lem :
    (src : ℕ → ℕ) (hi lo : ℕ) (r : StreamReassembler) (p : Piece)
    → hi ≤ limit
    → r.unassembled ≡ sizes r.m
    → IsPiece src hi lo p
    → (before passed rest : ChunkMap) → r.m ≡ before ++ (passed ++ rest)
    → Chunks src hi lo (before ++ (passed ++ rest))
    → AllBelow p.lb before
    → HeadFrom p.lb (passed ++ rest)
    → AllStart p.rb passed
    → HeadPast p.rb rest
    → (m' : ChunkMap) × Stored src hi lo r p (store_between r p before passed rest) m'
unfolding store_between
store_between_lem src hi lo r p small count v before [] rest e ch below from starts past =
    (_, alone_lem src hi lo small r p v count before rest e ch below past)
store_between_lem src hi lo r p small count v before (fit ∷ more) rest e ch below from starts past =
    (_, merged_lem src hi lo small r p v count before fit more rest e ch below from starts past)

-- Storing a run of the stream at or after `lo` throws nothing, keeps the map a sequence of runs
-- that are apart and in order, counts their bytes, and makes the map hold exactly what it held
-- and the piece.
pub store_lem :
    (src : ℕ → ℕ) (hi lo : ℕ) (r : StreamReassembler) (p : Piece)
    → hi ≤ limit
    → Chunks src hi lo r.m
    → r.unassembled ≡ sizes r.m
    → IsPiece src hi lo p
    → (m' : ChunkMap) × Stored src hi lo r p (store r p) m'
unfolding store
store_lem src hi lo r p small ch count v =
    let (whole, below, from) = split_at_lem p.lb r.m in
    let (part, starts, past) = overlaps_lem p.rb (split_at p.lb r.m).1 in
    let e = whole ∙ ap (λ l. (split_at p.lb r.m).0 ++ l) part in
    store_between_lem src hi lo r p small count v _ _ _ e (subst (Chunks src hi lo) e ch) below
      (subst (HeadFrom p.lb) part from) starts past
