-- ===== src/Router/Longest.antt =====
-- Which route libsponge/router.cc picks for an address.
use cs144_me.Prelude.{ℕ, ◌≤◌, ◌<◌, ◌≡◌, ◌⊎◌, inl, inr, refl, ap, ◌∙◌, true, ltb, arith, Bool-cases}
use cs144_me.Prelude.Assoc.{Assoc, leaf, entry, lookup}
use cs144_me.Router.{Router, Best, or_else, matches, consider, find_route}

-- The table has this length for this prefix.
abbrev pub Has : ℕ → ℕ → Assoc ℕ → Type 0
Has prefix len leaf = ⊥
Has prefix len (entry p l m) = ((prefix ≡ p) × (len ≡ l)) ⊎ Has prefix len m

-- What the code keeps of a route that it takes.
abbrev pub best_of : Router → ℕ → ℕ → ℕ → Best
best_of r addr prefix len = record {
  m_length = len;
  itf = or_else 0 (lookup prefix r.itf_map);
  next_hop = or_else addr (lookup prefix r.gw_map);
}

-- The result of the loop from the variables `best`.
pub record Chosen (r : Router) (addr : ℕ) (m : Assoc ℕ) (best res : Best) : Type 0 where
  pub longest :
      (prefix len : ℕ) → Has prefix len m → matches prefix len addr ≡ true → len ≤ res.m_length
  pub at_least : best.m_length ≤ res.m_length
  pub origin :
      (res ≡ best)
      ⊎ ((prefix : ℕ) × (len : ℕ) × Has prefix len m
          × (matches prefix len addr ≡ true)
          × (best.m_length < len)
          × (res ≡ best_of r addr prefix len))

consider_lem :
    (r : Router) (addr prefix len : ℕ) (best : Best)
    → ((consider r addr prefix len best ≡ best_of r addr prefix len)
        × (matches prefix len addr ≡ true)
        × (best.m_length < len))
      ⊎ ((consider r addr prefix len best ≡ best)
          × (matches prefix len addr ≡ true → len ≤ best.m_length))
unfolding consider
consider_lem r addr prefix len best = elim (Bool-cases (matches prefix len addr)) [
  | inl e ↦ elim (Bool-cases (ltb best.m_length len)) [
    | inl l ↦ inl (rw (e, l) refl, e, ground arith)
    | inr l ↦ inr (rw (e, l) refl, λ h. ground arith)
  ]
  | inr e ↦ inr (rw e refl, λ h. ground arith)
]

-- With a lookup that starts from `best`, the result is at least as long as every route of the table
-- that matches the address, and it is `best` itself or a matching route of the table longer than
-- `best`, with the interface and the next hop of that route's prefix.
pub find_route_longest :
    (r : Router) (addr : ℕ) (m : Assoc ℕ) (best : Best)
    → Chosen r addr m best (find_route r addr m best)
unfolding find_route
find_route_longest r addr leaf best = record {
  longest = λ p l h. absurd h;
  at_least = omega arith;
  origin = inl refl;
}
find_route_longest r addr (entry prefix len m) best =
    let c = find_route_longest r addr m (consider r addr prefix len best) in
    elim (consider_lem r addr prefix len best) [
      | inl (e, h, l) ↦ record {
        longest = λ p k i t. elim i [
          | inl (ep, ek) ↦ omega (arith, c.at_least, ap Best.m_length e, ek)
          | inr j ↦ c.longest p k j t
        ];
        at_least = omega (arith, c.at_least, ap Best.m_length e);
        origin = inr (elim c.origin [
          | inl d ↦ (prefix, len, inl (refl, refl), h, l, d ∙ e)
          | inr (p, k, i, t, b, d) ↦ (p, k, inr i, t, omega (arith, b, ap Best.m_length e), d)
        ]);
      }
      | inr (e, no_longer) ↦ record {
        longest = λ p k i t. elim i [
          | inl (ep, ek) ↦
              omega (arith, no_longer (rw (← ep, ← ek) t), c.at_least, ap Best.m_length e, ek)
          | inr j ↦ c.longest p k j t
        ];
        at_least = omega (arith, c.at_least, ap Best.m_length e);
        origin = elim c.origin [
          | inl d ↦ inl (d ∙ e)
          | inr (p, k, i, t, b, d) ↦ inr (p, k, inr i, t, omega (arith, b, ap Best.m_length e), d)
        ];
      }
    ]
