-- ===== src/Reassembler/Chunks.antt =====
-- The map of libsponge/stream_reassembler.cc seen as runs of the stream: in order, apart, and not
-- empty. What `lower_bound`, the overlap loop and `m[key] = …` do to it.
use cs144_me.Prelude.{
  ℕ, suc, ◌+◌, ◌-◌, ◌^◌, ◌≤◌, ◌<◌, ◌≡◌, max, refl, ap, List, [], ◌∷◌, ◌++◌, length, arith, ltb, leb,
  Bool, true, false, ◌&&◌, ◌||◌, Bool-cases, inl, inr, leb→le, ltb→lt, leb_false→lt, ltb_false→le,
}
use cs144_me.Reassembler.{Chunk, ChunkMap, first, split_at, overlaps, last_of, assign, total_size}
use cs144_me.Reassembler.Slice.{slice}

-- The indices that the theorems speak of: no sum of two of them wraps.
abbrev pub limit : ℕ
limit = 2 ^ 62

module _ (src : ℕ → ℕ) (hi : ℕ) where
  -- A run of the stream from lo on and below hi.
  pub record IsChunk (lo : ℕ) (c : Chunk) : Type 0 where
    pub nonempty : 0 < length c.bytes
    pub room : lo + length c.bytes ≤ c.last + 1
    pub below : c.last < hi
    pub bytes : c.bytes ≡ slice src (c.last + 1 - length c.bytes) (length c.bytes)

  abbrev pub Chunks : ℕ → ChunkMap → Type 0
  Chunks lo [] = Unit {0}
  Chunks lo (c ∷ m) = IsChunk lo c × Chunks (c.last + 1) m

-- Where the last entry ends, or lo.
abbrev pub ends : ℕ → ChunkMap → ℕ
ends lo [] = lo
ends lo (c ∷ m) = ends (c.last + 1) m

-- The bytes in all the entries.
abbrev pub sizes : ChunkMap → ℕ
sizes [] = 0
sizes (c ∷ m) = length c.bytes + sizes m

-- Does an entry hold the index?
abbrev pub covers : ChunkMap → ℕ → Bool
covers [] i = false
covers (c ∷ m) i = (ltb i (c.last + 1) && leb (c.last + 1) (i + length c.bytes)) || covers m i

pub sizes-append : (xs ys : ChunkMap) → sizes (xs ++ ys) ≡ sizes xs + sizes ys
sizes-append [] ys = omega arith
sizes-append (x ∷ xs) ys = omega (arith, sizes-append xs ys)

pub covers-append : (xs ys : ChunkMap) (i : ℕ) → covers (xs ++ ys) i ≡ (covers xs i || covers ys i)
covers-append [] ys i = refl
covers-append (x ∷ xs) ys i = ground (arith, covers-append xs ys i)

-- The first index of an entry, with no wrap-around.
pub first_lem :
    (src : ℕ → ℕ) {hi lo : ℕ} (c : Chunk)
    → IsChunk src hi lo c
    → hi ≤ limit
    → first c ≡ c.last + 1 - length c.bytes
first_lem src c v h = ground arith

module _ (src : ℕ → ℕ) (hi : ℕ) where
  pub Chunks-append :
      (lo : ℕ) (xs ys : ChunkMap)
      → Chunks src hi lo xs
      → Chunks src hi (ends lo xs) ys
      → Chunks src hi lo (xs ++ ys)
  Chunks-append lo [] ys h k = k
  Chunks-append lo (x ∷ xs) ys h k = (h.0, Chunks-append (x.last + 1) xs ys h.1 k)

  pub Chunks-front : (lo : ℕ) (xs ys : ChunkMap) → Chunks src hi lo (xs ++ ys) → Chunks src hi lo xs
  Chunks-front lo [] ys h = tt
  Chunks-front lo (x ∷ xs) ys h = (h.0, Chunks-front (x.last + 1) xs ys h.1)

  pub Chunks-back :
      (lo : ℕ) (xs ys : ChunkMap) → Chunks src hi lo (xs ++ ys) → Chunks src hi (ends lo xs) ys
  Chunks-back lo [] ys h = h
  Chunks-back lo (x ∷ xs) ys h = Chunks-back (x.last + 1) xs ys h.1

  pub le-ends : (lo : ℕ) (xs : ChunkMap) → Chunks src hi lo xs → lo ≤ ends lo xs
  le-ends lo [] h = omega arith
  le-ends lo (x ∷ xs) h = let i = h.0 in omega (arith, le-ends (x.last + 1) xs h.1)

  -- A higher limit, and a lower start, are no harder to meet.
  pub Chunks-mono :
      (hi' lo : ℕ) (xs : ChunkMap) → hi ≤ hi' → Chunks src hi lo xs → Chunks src hi' lo xs
  Chunks-mono hi' lo [] h k = tt
  Chunks-mono hi' lo (x ∷ xs) h k = (
    record { nonempty = k.0.nonempty; room = k.0.room; below = omega arith; bytes = k.0.bytes },
    Chunks-mono hi' (x.last + 1) xs h k.1,
  )

-- The conditions that the two loops over the map leave behind.
abbrev pub AllBelow : ℕ → ChunkMap → Type 0
AllBelow lb [] = Unit {0}
AllBelow lb (c ∷ m) = (c.last < lb) × AllBelow lb m

abbrev pub HeadFrom : ℕ → ChunkMap → Type 0
HeadFrom lb [] = Unit {0}
HeadFrom lb (c ∷ m) = lb ≤ c.last

abbrev pub AllStart : ℕ → ChunkMap → Type 0
AllStart rb [] = Unit {0}
AllStart rb (c ∷ m) = (first c ≤ rb) × AllStart rb m

abbrev pub HeadPast : ℕ → ChunkMap → Type 0
HeadPast rb [] = Unit {0}
HeadPast rb (c ∷ m) = rb < first c

pub split_at_lem :
    (lb : ℕ) (m : ChunkMap)
    → let (before, after) = split_at lb m in
      (m ≡ before ++ after) × AllBelow lb before × HeadFrom lb after
unfolding split_at
split_at_lem lb [] = (refl, tt, tt)
split_at_lem lb (c ∷ m) = elim (Bool-cases (ltb c.last lb)) [
  | inl e ↦ let ih = split_at_lem lb m in rw e (ap (λ l. c ∷ l) ih.0, (ltb→lt _ _ e, ih.1), ih.2)
  | inr e ↦ rw e (refl, tt, ltb_false→le _ _ e)
]

pub overlaps_lem :
    (rb : ℕ) (m : ChunkMap)
    → let (passed, others) = overlaps rb m in
      (m ≡ passed ++ others) × AllStart rb passed × HeadPast rb others
unfolding overlaps
overlaps_lem rb [] = (refl, tt, tt)
overlaps_lem rb (c ∷ m) = elim (Bool-cases (leb (first c) rb)) [
  | inl e ↦ let ih = overlaps_lem rb m in rw e (ap (λ l. c ∷ l) ih.0, (leb→le _ _ e, ih.1), ih.2)
  | inr e ↦ rw e (refl, tt, leb_false→lt _ _ e)
]

pub AllBelow-mono : {a b : ℕ} (m : ChunkMap) → a ≤ b → AllBelow a m → AllBelow b m
AllBelow-mono [] h k = tt
AllBelow-mono (c ∷ m) h k = (omega arith, AllBelow-mono m h k.1)

pub ends_le : (lo lb : ℕ) (m : ChunkMap) → lo ≤ lb → AllBelow lb m → ends lo m ≤ lb
ends_le lo lb [] h k = h
ends_le lo lb (c ∷ m) h k = ends_le (c.last + 1) lb m (omega (arith, k.0)) k.1

-- `m[key] = bytes` puts the entry where its key belongs.
pub assign_between :
    (key : ℕ) (bytes : List ℕ) (before after : ChunkMap)
    → AllBelow key before
    → HeadFrom (suc key) after
    → assign key bytes (before ++ after) ≡ before ++ (record { last = key; bytes = bytes } ∷ after)
unfolding assign
assign_between key bytes [] [] h k = refl
assign_between key bytes [] (c ∷ m) h k = ground arith
assign_between key bytes (c ∷ m) after h k = ground (arith, assign_between key bytes m after h.1 k)

module _ (src : ℕ → ℕ) (hi : ℕ) (small : hi ≤ limit) where
  -- Entries that begin past rb stand where a run up to rb has its end.
  pub Chunks_past :
      (lo rb t : ℕ) (m : ChunkMap)
      → t ≤ max lo (rb + 1)
      → Chunks src hi lo m
      → HeadPast rb m
      → Chunks src hi t m × HeadFrom t m
  Chunks_past lo rb t [] le h k = (tt, tt)
  Chunks_past lo rb t (c ∷ m) le h k = (
    (
      record {
        nonempty = h.0.nonempty;
        room = omega (arith, first_lem src c h.0 small, h.0.room, h.0.nonempty);
        below = h.0.below;
        bytes = h.0.bytes;
      },
      h.1,
    ),
    omega (arith, first_lem src c h.0 small, h.0.room, h.0.nonempty),
  )

  pub sizes_le : (lo : ℕ) (m : ChunkMap) → lo ≤ hi → Chunks src hi lo m → lo + sizes m ≤ hi
  sizes_le lo [] h k = omega arith
  sizes_le lo (c ∷ m) h k =
      omega (arith, sizes_le (c.last + 1) m (omega (arith, k.0.below)) k.1, k.0.room)

  pub total_size_lem :
      (lo : ℕ) (m : ChunkMap) → lo ≤ hi → Chunks src hi lo m → total_size m ≡ sizes m
  unfolding total_size
  total_size_lem lo [] h k = refl
  total_size_lem lo (c ∷ m) h k = omega (
    arith,
    total_size_lem (c.last + 1) m (omega (arith, k.0.below)) k.1,
    sizes_le (c.last + 1) m (omega (arith, k.0.below)) k.1,
    k.0.room,
  )

  -- An index that the entries hold lies between lo and where they end.
  pub covers_bounds :
      (lo : ℕ) (m : ChunkMap) (i : ℕ)
      → Chunks src hi lo m
      → covers m i ≡ true
      → (lo ≤ i) × (i < ends lo m)
  covers_bounds lo [] i h k = cc
  covers_bounds lo (c ∷ m) i h k =
      ground
        (arith, covers_bounds (c.last + 1) m i h.1, le-ends src hi (c.last + 1) m h.1, h.0.room)

-- The last of the entries that a piece overlaps.
module _ (src : ℕ → ℕ) (hi : ℕ) where
  pub last_of-IsChunk :
      (lo : ℕ) (c : Chunk) (m : ChunkMap)
      → Chunks src hi lo (c ∷ m)
      → IsChunk src hi lo (last_of c m)
        × (ends lo (c ∷ m) ≡ (last_of c m).last + 1)
        × (c.last ≤ (last_of c m).last)
        × (c.last + 1 + length (last_of c m).bytes ≤ (last_of c m).last + 1 + length c.bytes)
  unfolding last_of
  last_of-IsChunk lo c [] h = (h.0, refl, omega arith, omega arith)
  last_of-IsChunk lo c (d ∷ m) h =
      let ih = last_of-IsChunk (c.last + 1) d m h.1 in
      (
        record {
          nonempty = ih.0.nonempty;
          room = omega (arith, ih.0.room, h.0.room);
          below = ih.0.below;
          bytes = ih.0.bytes;
        },
        ih.1,
        omega (arith, ih.0.room, ih.0.nonempty),
        omega (arith, ih.0.room, ih.0.nonempty, h.0.nonempty),
      )

pub last_of-AllStart :
    (rb : ℕ) (c : Chunk) (m : ChunkMap) → AllStart rb (c ∷ m) → first (last_of c m) ≤ rb
unfolding last_of
last_of-AllStart rb c [] h = h.0
last_of-AllStart rb c (d ∷ m) h = last_of-AllStart rb d m h.1

pub covers-last_of :
    (c : Chunk) (m : ChunkMap) (i : ℕ)
    → covers (last_of c m ∷ []) i ≡ true
    → covers (c ∷ m) i ≡ true
unfolding last_of
covers-last_of c [] i h = h
covers-last_of c (d ∷ m) i h = ground (arith, covers-last_of d m i h)
