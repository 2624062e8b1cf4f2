-- ===== src/Checksum/Laws.antt =====
-- The checksum of libsponge/util/util.cc as a sum of 16-bit words, and over a packet that holds its own
-- checksum.
use cs144_me.Prelude.{
  ℕ, ◌+◌, ◌-◌, ◌*◌, ◌%◌, ◌^◌, ◌<◌, ◌≤◌, ◌≡◌, ◌↔◌, refl, Bool, true, false, not, List, [], ◌∷◌, ◌++◌,
  if◌then◌else◌, arith, length,
}
use cs144_me.Checksum.{InternetChecksum, new, add, add_byte, fold, value}
use cs144_me.Parser.{put_u16}
use cs144_me.Parser.Laws.{AllBytes}

-- What a string adds to the sum, with no wrap-around.
abbrev pub total : Bool → List ℕ → ℕ
total parity [] = 0
total parity (b ∷ bs) = (if parity then b else b * 256 % 2 ^ 16) + total (not parity) bs

abbrev pub parity_after : Bool → List ℕ → Bool
parity_after parity [] = parity
parity_after parity (b ∷ bs) = parity_after (not parity) bs

-- A byte adds less than 2 ^ 16.
pub total_le : (p : Bool) (xs : List ℕ) → AllBytes xs → total p xs ≤ 2 ^ 16 * length xs
total_le p [] h = omega arith
total_le true (x ∷ xs) h = omega (arith, total_le false xs h.1)
total_le false (x ∷ xs) h = omega (arith, total_le true xs h.1)

pub add-append : (c : InternetChecksum) (xs ys : List ℕ) → add c (xs ++ ys) ≡ add (add c xs) ys
unfolding add
add-append c [] ys = refl
add-append c (x ∷ xs) ys = add-append (add_byte c x) xs ys

pub add_lem :
    (c : InternetChecksum) (xs : List ℕ)
    → c.sum + total c.parity xs < 2 ^ 32
    → add c xs ≡ record { sum = c.sum + total c.parity xs; parity = parity_after c.parity xs }
unfolding add add_byte
add_lem c [] h = ground arith
add_lem c (x ∷ xs) h = ground (arith, add_lem (add_byte c x) xs)

pub total-append :
    (p : Bool) (xs ys : List ℕ) → total p (xs ++ ys) ≡ total p xs + total (parity_after p xs) ys
total-append p [] ys = omega arith
total-append p (x ∷ xs) ys = omega (arith, total-append (not p) xs ys)

-- The loop ends by its test, at a number that is the sum modulo 65535, and 0 only for 0.
fold_lem :
    (s : ℕ)
    → s < 2 ^ 32
    → (fold 3 s ≤ 0xffff)
      × (fold 3 s % 0xffff ≡ s % 0xffff)
      × (0 < s → 0 < fold 3 s)
      × (fold 3 s ≤ s)
unfolding fold
fold_lem s h = ground arith

value_lem : (c : InternetChecksum) → value c ≡ 0xffff - fold 3 c.sum
unfolding value
value_lem c = refl

pub value-lt : (c : InternetChecksum) → value c < 2 ^ 16
value-lt c = omega (arith, value_lem c)

-- For a sum below 2 ^ 32, the value is 0 exactly if the sum is a positive multiple of 65535.
value_zero :
    (c : InternetChecksum) → c.sum < 2 ^ 32 → (value c ≡ 0) ↔ ((0 < c.sum) × (c.sum % 0xffff ≡ 0))
value_zero c h =
    let f = fold_lem c.sum h in (λ e. omega (arith, value_lem c), λ p. omega (arith, value_lem c))

value_complement : (c : InternetChecksum) → c.sum < 2 ^ 32 → (c.sum + value c) % 0xffff ≡ 0
value_complement c h = let f = fold_lem c.sum h in omega (arith, value_lem c)

value_pos : (c : InternetChecksum) → c.sum < 2 ^ 32 → 0 < c.sum + value c
value_pos c h = let f = fold_lem c.sum h in omega (arith, value_lem c)

total-put_u16 : (v : ℕ) → v < 2 ^ 16 → total false (put_u16 v) ≡ v
unfolding put_u16
total-put_u16 v h = omega arith

-- The sum over a packet, its checksum field apart.
abbrev pub rest_sum : ℕ → List ℕ → List ℕ → ℕ
rest_sum s pre post = s + total false pre + total false post

module _ (s : ℕ) (pre post : List ℕ) (even : parity_after false pre ≡ false) where
  packet_total :
      (v : ℕ)
      → v < 2 ^ 16
      → total false (pre ++ (put_u16 v ++ post)) ≡ total false pre + v + total false post
  unfolding put_u16
  packet_total v h = ground (arith, total-append false pre (put_u16 v ++ post))

  packet_sum :
      (v : ℕ)
      → v < 2 ^ 16
      → rest_sum s pre post + v < 2 ^ 32
      → (add (new s) (pre ++ (put_u16 v ++ post))).sum ≡ rest_sum s pre post + v
  unfolding new
  packet_sum v h k = ground (arith, add_lem (new s) (pre ++ (put_u16 v ++ post)), packet_total v h)

-- Take a packet whose 16-bit checksum field stands after an even number of bytes, and whose words
-- sum up, with the initial sum, to less than 2 ^ 32 - 2 ^ 16. With the field set to the value
-- computed while it was 0, the value over the packet is 0.
pub fill_verifies :
    (s : ℕ) (pre post : List ℕ)
    → parity_after false pre ≡ false
    → rest_sum s pre post + 2 ^ 16 < 2 ^ 32
    → value
        (add (new s) (pre ++ (put_u16 (value (add (new s) (pre ++ (put_u16 0 ++ post)))) ++ post)))
      ≡ 0
fill_verifies s pre post even h = (value_zero filled (omega (arith, e, value-lt zeroed))).1 (
    omega (
      arith,
      e,
      e0,
      value_complement zeroed (omega (arith, e0)),
      value_pos zeroed (omega (arith, e0)),
    ))
  where
    zeroed : InternetChecksum
    zeroed = add (new s) (pre ++ (put_u16 0 ++ post))

    filled : InternetChecksum
    filled = add (new s) (pre ++ (put_u16 (value zeroed) ++ post))

    e0 : zeroed.sum ≡ rest_sum s pre post + 0
    e0 = packet_sum s pre post even 0 (omega arith) (omega arith)

    e : filled.sum ≡ rest_sum s pre post + value zeroed
    e = packet_sum s pre post even (value zeroed) (value-lt zeroed) (omega (arith, value-lt zeroed))
