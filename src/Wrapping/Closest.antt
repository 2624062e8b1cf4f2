-- ===== src/Wrapping/Closest.antt =====
-- `wrap` and `unwrap` of libsponge/wrapping_integers.cc and the distance to the checkpoint.
use cs144_me.Prelude.{
  ℕ, ◌+◌, ◌-◌, ◌*◌, ◌/◌, ◌%◌, ◌^◌, ◌≤◌, ◌<◌, ◌≡◌, inl, inr, ltb, leb, if◌then◌else◌, arith,
  Bool-cases, refl, leb→le, leb_false→lt, sym, ◌∙◌,
}
use cs144_me.Prelude.Word.{add_size, sub_size}
use cs144_me.Wrapping.{WrappingInt32, wrap, unwrap, raise, pass, pick, big}

raise_lem : (n isn : ℕ) → n < big → isn < big → raise 2 n isn ≡ (if ltb n isn then n + big else n)
unfolding raise
raise_lem n isn h k = ground arith

-- The least absolute number that wraps to n.
abbrev pub least : WrappingInt32 → WrappingInt32 → ℕ
least n isn = (n + (big - isn)) % big

pass_lem :
    (checkpoint abs : ℕ)
    → abs ≤ checkpoint
    → checkpoint < abs + big
    → checkpoint < 2 ^ 63
    → pass 2 checkpoint abs ≡ abs + big
unfolding pass
pass_lem c a h k l = ground arith

first_lem : (n isn : ℕ) → n < big → isn < big → sub_size (raise 2 n isn) isn ≡ least n isn
first_lem n isn h k = rw (raise_lem n isn h k) (ground arith)

-- The candidate at or below the checkpoint, from the least one.
abbrev pub below : ℕ → ℕ → ℕ
below a checkpoint = a + big * ((checkpoint - a) / big)

below_bounds : (a c : ℕ) → a ≤ c → (below a c ≤ c) × (c < below a c + big)
below_bounds a c h = omega arith

jump_lem :
    (a c : ℕ) → a < c → c < 2 ^ 63 → add_size a (big * (sub_size c a / big) % 2 ^ 64) ≡ below a c
jump_lem a c h l = ground arith

pick_lem :
    (c low : ℕ)
    → low ≤ c
    → c < low + big
    → c < 2 ^ 63
    → pick c (low + big) ≡ (if leb (c - low) (low + big - c) then low else low + big)
unfolding pick
pick_lem c low h k l = ground arith

-- What `unwrap` gives, in terms of the candidates below and above the checkpoint.
unwrap_above :
    (n isn checkpoint : ℕ)
    → n < big
    → isn < big
    → checkpoint ≤ least n isn
    → unwrap n isn checkpoint ≡ least n isn
unfolding unwrap
unwrap_above n isn c h k l = ground (arith, first_lem n isn h k)

unwrap_between :
    (n isn checkpoint : ℕ)
    → n < big
    → isn < big
    → checkpoint < 2 ^ 63
    → least n isn < checkpoint
    → let low = below (least n isn) checkpoint in
      unwrap n isn checkpoint
      ≡ (if leb (checkpoint - low) (low + big - checkpoint) then low else low + big)
unfolding unwrap
unwrap_between n isn c h k l g =
    let a : ℕ = least n isn in
    let (b, b') = below_bounds a c (omega arith) in
    ground (
      arith,
      first_lem n isn h k,
      jump_lem a c g l,
      pass_lem c (below a c) b b' l,
      pick_lem c (below a c) b b' l,
    )

-- |a - b|
abbrev pub gap : ℕ → ℕ → ℕ
gap a b = (a - b) + (b - a)

pub wrap_lem : (x isn : ℕ) → x < 2 ^ 63 + big → isn < big → wrap x isn ≡ (x + isn) % big
unfolding wrap
wrap_lem x isn h k = omega arith

-- The numbers that wrap to n are the least one and its translates.
wraps_to :
    (n isn x : ℕ) → n < big → isn < big → (x + isn) % big ≡ n → x ≡ least n isn + big * (x / big)
wraps_to n isn x h k e = omega arith

translate_wraps : (n isn q : ℕ) → n < big → isn < big → (least n isn + big * q + isn) % big ≡ n
translate_wraps n isn q h k = omega arith

above_closest : (a q c : ℕ) → c ≤ a → gap a c ≤ gap (a + big * q) c
above_closest a q c h = omega arith

low_closest :
    (a q m c : ℕ)
    → a + big * m ≤ c
    → c < a + big * m + big
    → c - (a + big * m) ≤ a + big * m + big - c
    → gap (a + big * m) c ≤ gap (a + big * q) c
low_closest a q m c h k l = omega arith

high_closest :
    (a q m c : ℕ)
    → a + big * m ≤ c
    → c < a + big * m + big
    → a + big * m + big - c < c - (a + big * m)
    → gap (a + big * m + big) c ≤ gap (a + big * q) c
high_closest a q m c h k l = omega arith

-- A result that is a translate of the least number, and closest among those.
record IsClosest (n isn c r : ℕ) : Type 0 where
  wraps : (r + isn) % big ≡ n
  small : r < 2 ^ 63 + big
  near : (x : ℕ) → (x + isn) % big ≡ n → gap r c ≤ gap x c

module _ (n isn c : ℕ) (h : n < big) (k : isn < big) where
  abbrev a : ℕ
  a = least n isn

  near_of :
      (r : ℕ)
      → ((q : ℕ) → gap r c ≤ gap (a + big * q) c)
      → (x : ℕ) → (x + isn) % big ≡ n
      → gap r c ≤ gap x c
  near_of r f x e = rw (wraps_to n isn x h k e) (f (x / big))

  IsClosest-above : c ≤ a → IsClosest n isn c a
  IsClosest-above l = record {
    wraps = omega (arith, translate_wraps n isn 0 h k);
    small = omega arith;
    near = near_of a (λ q. above_closest a q c l);
  }

  IsClosest-between :
      a < c
      → c < 2 ^ 63
      → IsClosest n isn c
          (if leb (c - below a c) (below a c + big - c) then below a c else below a c + big)
  IsClosest-between g l = elim (Bool-cases (leb (c - below a c) (below a c + big - c))) [
    | inl e ↦ rw e (record {
      wraps = translate_wraps n isn ((c - a) / big) h k;
      small = omega arith;
      near = near_of _ (λ q. low_closest a q ((c - a) / big) c b.0 b.1 (leb→le _ _ e));
    })
    | inr e ↦ rw e (record {
      wraps = omega (arith, translate_wraps n isn ((c - a) / big) h k);
      small = omega arith;
      near = near_of _ (λ q. high_closest a q ((c - a) / big) c b.0 b.1 (leb_false→lt _ _ e));
    })
  ]
    where
      b : (below a c ≤ c) × (c < below a c + big)
      b = below_bounds a c (omega arith)

  unwrap-IsClosest : c < 2 ^ 63 → IsClosest n isn c (unwrap n isn c)
  unwrap-IsClosest l = elim (Bool-cases (leb c a)) [
    | inl e ↦ rw (unwrap_above n isn c h k (leb→le c a e)) (IsClosest-above (leb→le c a e))
    | inr e ↦
        rw (unwrap_between n isn c h k l (leb_false→lt c a e))
          (IsClosest-between (leb_false→lt c a e) l)
  ]

-- For sequence numbers below 2 ^ 32 and a checkpoint below 2 ^ 63, the number that `unwrap` gives
-- wraps to `n`, and no number below 2 ^ 63 that wraps to `n` is closer to the checkpoint.
pub unwrap_closest :
    (n isn checkpoint : ℕ)
    → n < big
    → isn < big
    → checkpoint < 2 ^ 63
    → (wrap (unwrap n isn checkpoint) isn ≡ n)
      × ((x : ℕ)
          → x < 2 ^ 63
          → wrap x isn ≡ n
          → gap (unwrap n isn checkpoint) checkpoint ≤ gap x checkpoint)
unwrap_closest n isn c h k l = (
  wrap_lem (unwrap n isn c) isn r.small k ∙ r.wraps,
  λ x s e. r.near x (sym (wrap_lem x isn (omega arith) k) ∙ e),
)
  where
    r : IsClosest n isn c (unwrap n isn c)
    r = unwrap-IsClosest n isn c h k l

same_of_near :
    (n isn c x : ℕ)
    → n < big
    → isn < big
    → (x + isn) % big ≡ n
    → gap x c < 2 ^ 31
    → {r : ℕ} → IsClosest n isn c r
    → r ≡ x
same_of_near n isn c x h k e g {r} v =
    omega (arith, v.near x e, wraps_to n isn x h k e, wraps_to n isn r h k v.wraps)

-- `unwrap` undoes `wrap` for every absolute number less than 2 ^ 31 away from the checkpoint.
pub unwrap-wrap :
    (x isn checkpoint : ℕ)
    → isn < big
    → x < 2 ^ 63
    → checkpoint < 2 ^ 63
    → gap x checkpoint < 2 ^ 31
    → unwrap (wrap x isn) isn checkpoint ≡ x
unwrap-wrap x isn c k s l g = rw e (
    same_of_near ((x + isn) % big) isn c x (omega arith) k refl g
      (unwrap-IsClosest ((x + isn) % big) isn c (omega arith) k l))
  where
    e : wrap x isn ≡ (x + isn) % big
    e = wrap_lem x isn (omega arith) k
