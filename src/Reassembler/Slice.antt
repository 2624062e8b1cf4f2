-- ===== src/Reassembler/Slice.antt =====
-- Runs of a stream of bytes, and `combine` of libsponge/stream_reassembler.cc on two of them.
use cs144_me.Prelude.{
  ℕ, zero, suc, ◌+◌, ◌-◌, ◌^◌, ◌≤◌, ◌<◌, ◌≡◌, min, max, refl, ap, ◌∙◌, List, [], ◌∷◌, ◌++◌, length,
  take, drop, arith, take_all,
}
use cs144_me.Prelude.Result.{ok}
use cs144_me.Reassembler.{combine, join}
use cs144_me.ByteStream.{substr}
use native.Mathlib.Decide.{dec_le, dec_lt}

-- The n bytes of the stream from index i on.
abbrev pub slice : (ℕ → ℕ) → ℕ → ℕ → List ℕ
slice src i zero = []
slice src i (suc n) = src i ∷ slice src (suc i) n

module _ (src : ℕ → ℕ) where
  pub length-slice : (i n : ℕ) → length (slice src i n) ≡ n
  length-slice i zero = refl
  length-slice i (suc n) = ap suc (length-slice (suc i) n)

  pub slice_cong : {i j n m : ℕ} → i ≡ j → n ≡ m → slice src i n ≡ slice src j m
  slice_cong p q = cc

  pub slice-append : (i n m : ℕ) → slice src i n ++ slice src (i + n) m ≡ slice src i (n + m)
  slice-append i zero m = slice_cong (omega arith) (omega arith)
  slice-append i (suc n) m =
      ap (λ l. src i ∷ (slice src (suc i) n ++ l)) (slice_cong (omega arith) refl)
      ∙ ap (λ l. src i ∷ l) (slice-append (suc i) n m)
      ∙ slice_cong {n = suc (n + m)} refl (omega arith)

  pub take-slice : (k i n : ℕ) → k ≤ n → take k (slice src i n) ≡ slice src i k
  take-slice zero i n h = refl
  take-slice (suc k) i zero h = absurd (omega arith)
  take-slice (suc k) i (suc n) h = ap (λ l. src i ∷ l) (take-slice k (suc i) n (omega arith))

  pub drop-slice : (k i n : ℕ) → k ≤ n → drop k (slice src i n) ≡ slice src (i + k) (n - k)
  drop-slice zero i n h = slice_cong (omega arith) (omega arith)
  drop-slice (suc k) i zero h = absurd (omega arith)
  drop-slice (suc k) i (suc n) h =
      drop-slice k (suc i) n (omega arith) ∙ slice_cong (omega arith) (omega arith)

  pub substr-slice :
      (i n pos count : ℕ)
      → pos ≤ n
      → n ≤ count
      → substr (slice src i n) pos count ≡ ok (slice src (i + pos) (n - pos))
  unfolding substr
  substr-slice i n pos count h k = ground (
    arith,
    length-slice i n,
    drop-slice pos i n h,
    take_all count (slice src (i + pos) (n - pos)),
    length-slice (i + pos) (n - pos),
  )

  -- A cut of a run that starts within it is a run.
  pub substr_run :
      (s : List ℕ) (i n pos count j k : ℕ)
      → s ≡ slice src i n
      → pos ≤ n
      → n ≤ count
      → j ≡ i + pos
      → k ≡ n - pos
      → substr s pos count ≡ ok (slice src j k)
  substr_run s i n pos count j k e h l p q = rw (e, p, q) (substr-slice i n pos count h l)

  pub take_run :
      (s : List ℕ) (i n c k : ℕ) → s ≡ slice src i n → k ≤ n → c ≡ k → take c s ≡ slice src i k
  take_run s i n c k e h q = rw (e, q) (take-slice k i n h)

  pub drop_run :
      (s : List ℕ) (i n c j k : ℕ)
      → s ≡ slice src i n
      → c ≤ n
      → j ≡ i + c
      → k ≡ n - c
      → drop c s ≡ slice src j k
  drop_run s i n c j k e h p q = rw (e, p, q) (drop-slice c i n h)

  -- Two runs of the stream that leave no hole make one run.
  join-slice :
      (a n b m : ℕ)
      → a ≤ b
      → b ≤ a + n
      → a + n < 2 ^ 63
      → b + m < 2 ^ 63
      → join (slice src a n) (slice src b m) a b ≡ ok (slice src a (max (a + n) (b + m) - a))
  unfolding join
  join-slice a n b m h k s t =
      rw (length-slice a n, length-slice b m)
        (elim (dec_le (b + m) (a + n)) [
          | yes le ↦ ground (arith, slice_cong {i = a} {n = n} {m = max (a + n) (b + m) - a} refl)
          | no gt ↦ ground (
            arith,
            substr-slice b m (a + n - b) m,
            slice-append a n (m - (a + n - b)),
            slice_cong {i = b + (a + n - b)} {j = a + n} {n = m - (a + n - b)} (omega arith) refl,
            slice_cong {i = a} {n = n + (m - (a + n - b))} {m = max (a + n) (b + m) - a} refl,
          )
        ])

  -- Two runs of the stream that leave no hole between them are combined to one.
  pub combine-slice :
      (a n b m : ℕ)
      → a ≤ b + m
      → b ≤ a + n
      → a + n < 2 ^ 63
      → b + m < 2 ^ 63
      → combine (slice src a n) (slice src b m) a b
        ≡ ok (slice src (min a b) (max (a + n) (b + m) - min a b))
  unfolding combine
  combine-slice a n b m h k s t = elim (dec_lt a b) [
    | yes lt ↦ ground (
      arith,
      join-slice a n b m,
      slice_cong {i = a} {j = min a b} {n = max (a + n) (b + m) - a}
          {m = max (a + n) (b + m) - min a b},
    )
    | no ge ↦ ground (
      arith,
      join-slice b m a n,
      slice_cong {i = b} {j = min a b} {n = max (b + m) (a + n) - b}
          {m = max (a + n) (b + m) - min a b},
    )
  ]
