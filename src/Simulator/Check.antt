-- ===== src/Simulator/Check.antt =====
-- Host::check of apps/network_simulator.cc: which datagrams it accepts.
use mathlib.Core.List.{Mem, Perm, mem-cons, mem-cons_self, not-mem-nil, nil≢cons, perm-cons}
use mathlib.Core.List.Perm
use mathlib.Core.Logic.Or
use mathlib.Core.HLevel.{⊥_prop}
use cs144_me.Prelude.{
  ℕ, ◌≡◌, ◌≢◌, ◌↔◌, refl, ap, sym, ◌∙◌, ◌⊎◌, inl, inr, Bool, true, false, List, [], ◌∷◌, ◌++◌, map,
  append-nil, arith, Bool-cases,
}
use cs144_me.Prelude.Result.{Result, Exception, ok, throw, ◌>>=◌}
use cs144_me.Header.Ipv4.{Ipv4Datagram, serialize_datagram}
use cs144_me.Interface.{same_address as same_bytes}
use cs144_me.Simulator.{
  Host, same_datagram, expecting, remove_expectation, receive_all, if_none_left, check,
}

-- The bytes of each datagram, or the exception.
abbrev pub wires : List Ipv4Datagram → List (Result (List ℕ))
wires = map serialize_datagram

-- Each datagram can be serialised.
abbrev pub AllWritable : List Ipv4Datagram → Type 0
AllWritable [] = Unit {0}
AllWritable (d ∷ ds) = ((bytes : List ℕ) × (serialize_datagram d ≡ ok bytes)) × AllWritable ds

same_bytes_eq : (a b : List ℕ) → same_bytes a b ≡ true → a ≡ b
unfolding same_bytes
same_bytes_eq [] [] h = refl
same_bytes_eq [] (y ∷ b) h = cc
same_bytes_eq (x ∷ a) [] h = cc
same_bytes_eq (x ∷ a) (y ∷ b) h = ground (arith, same_bytes_eq a b)

same_bytes_refl : (a : List ℕ) → same_bytes a a ≡ true
unfolding same_bytes
same_bytes_refl [] = refl
same_bytes_refl (x ∷ a) = ground (arith, same_bytes_refl a)

-- The test of two datagrams that are serialised finds equal bytes.
same_wire : (m n : Result (List ℕ)) → (m >>= λ a. n >>= λ b. ok (same_bytes a b)) ≡ ok true → m ≡ n
same_wire (throw e) n h = cc
same_wire (ok a) (throw e) h = cc
same_wire (ok a) (ok b) h = ap ok (same_bytes_eq a b (cc))

Result-cases :
    (m : Result Bool) → (m ≡ ok true) ⊎ ((m ≡ ok false) ⊎ ((m >>= λ b. ok true) ≢ ok true))
Result-cases (ok true) = inl refl
Result-cases (ok false) = inr (inl refl)
Result-cases (throw e) = inr (inr (λ h. cc))

ok_inj : {A : Type 0} {a b : A} → ok a ≡ ok b → a ≡ b
ok_inj h = cc

throw-ne-ok : {A : Type 0} {e : Exception} {a : A} → throw e ≡ ok a → ⊥
throw-ne-ok h = cc

false-ne-true : false ≡ true → ⊥
false-ne-true h = cc

-- What returns had a test that returned.
not_thrown :
    {A : Type 0} (m : Result Bool) (k : Bool → Result A) (a : A)
    → (m >>= k) ≡ ok a
    → (m >>= λ b. ok true) ≡ ok true
not_thrown (ok b) k a h = refl
not_thrown (throw e) k a h = cc

-- An expectation that is found is removed, once.
remove_lem :
    (xs : List Ipv4Datagram) (d : Ipv4Datagram)
    → expecting xs d ≡ ok true
    → (left : List Ipv4Datagram) × (remove_expectation xs d ≡ ok left)
      × Perm (wires xs) (serialize_datagram d ∷ wires left)
      × (AllWritable xs → AllWritable left)
unfolding expecting remove_expectation
remove_lem [] d h = absurd (ground arith)
remove_lem (x ∷ xs) d h = elim (Result-cases (same_datagram x d)) [
  | inl e ↦ (xs, rw e refl, rw (same_wire _ _ e) (Perm.refl _), λ v. v.1)
  | inr (inl e) ↦
      let (left, r, p, k) = remove_lem xs d (rw e at h) in
      (x ∷ left, rw (e, r) refl, Perm.trans (Perm.cons _ p) (Perm.swap _ _ _), λ v. (v.0, k v.1))
  | inr (inr e) ↦ absurd (e (not_thrown _ _ _ h))
]

-- What the loop accepts: the expectations are the datagrams received and those left.
received_lem :
    (ds xs left : List Ipv4Datagram)
    → receive_all ds xs ≡ ok left
    → Perm (wires xs) (wires ds ++ wires left)
unfolding receive_all
received_lem [] xs left h = rw (ok_inj h) (Perm.refl _)
received_lem (d ∷ ds) xs left h = elim (Result-cases (expecting xs d)) [
  | inl e ↦
      let (rest, r, p, k) = remove_lem xs d e in
      Perm.trans p (Perm.cons _ (received_lem ds rest left (rw (e, r) at h)))
  | inr (inl e) ↦ absurd (throw-ne-ok (rw e at h))
  | inr (inr e) ↦ absurd (e (not_thrown _ _ _ h))
]

-- Among datagrams that can be serialised, the test finds the bytes or they are not there.
found_cases :
    (xs : List Ipv4Datagram) (d : Ipv4Datagram) (bytes : List ℕ)
    → AllWritable xs
    → serialize_datagram d ≡ ok bytes
    → (expecting xs d ≡ ok true) ⊎ (¬ Mem (serialize_datagram d) (wires xs))
unfolding expecting
found_cases [] d bytes v w = inr not-mem-nil
found_cases (x ∷ xs) d bytes ((a, ea), v) w =
    let e : same_datagram x d ≡ ok (same_bytes a bytes) = rw (ea, w) refl in
    elim (Bool-cases (same_bytes a bytes)) [
      | inl t ↦ inl (rw (e, t) refl)
      | inr f ↦ elim (found_cases xs d bytes v w) [
        | inl found ↦ inl (rw (e, f) found)
        | inr missing ↦ inr (λ m.
            Or.elim ⊥_prop (mem-cons.0 m)
              (λ q. false-ne-true (sym f ∙ rw (ok_inj (sym w ∙ q ∙ ea)) (same_bytes_refl a)))
              missing)
      ]
    ]

-- Datagrams that are expected in any order are accepted.
accepted_lem :
    (ds xs : List Ipv4Datagram)
    → AllWritable ds
    → AllWritable xs
    → Perm (wires xs) (wires ds)
    → receive_all ds xs ≡ ok []
unfolding receive_all
accepted_lem [] [] v w p = refl
accepted_lem [] (x ∷ xs) v w p = absurd (nil≢cons (sym (Perm.eq-nil p)))
accepted_lem (d ∷ ds) xs ((bytes, e), v) w p = elim (found_cases xs d bytes w e) [
  | inl found ↦
      let (left, r, q, k) = remove_lem xs d found in
      rw (found, r) (accepted_lem ds left v (k w) ((perm-cons _).0 (Perm.trans (Perm.symm q) p)))
  | inr missing ↦ absurd (missing ((Perm.mem_iff p).1 (mem-cons_self)))
]

-- A chain that returns has a first call that returns.
bind-eq-ok :
    {A B : Type 0} (m : Result A) (k : A → Result B) (b : B)
    → (m >>= k) ≡ ok b
    → (a : A) × (m ≡ ok a) × (k a ≡ ok b)
bind-eq-ok (ok a) k b h = (a, refl, h)
bind-eq-ok (throw e) k b h = absurd (throw-ne-ok h)

none_left : (h h' : Host) (left : List Ipv4Datagram) → if_none_left h left ≡ ok h' → left ≡ []
none_left h h' [] e = refl
none_left h h' (d ∷ ds) e = absurd (throw-ne-ok e)

-- Take a host whose datagrams, received and expected, can all be serialised. Its check passes exactly
-- when the bytes of those received are the bytes of those expected, in any order and each as often;
-- and then nothing received and nothing expected is left.
pub check_iff :
    (h : Host)
    → AllWritable h.interface.datagrams_out
    → AllWritable h.expecting_to_receive
    → ((h' : Host) × (check h ≡ ok h')
        × (h'.interface.datagrams_out ≡ [])
        × (h'.expecting_to_receive ≡ []))
      ↔ Perm (wires h.expecting_to_receive) (wires h.interface.datagrams_out)
unfolding check
check_iff h v w = (
  λ x.
      let (left, r, k) =
        bind-eq-ok (receive_all h.interface.datagrams_out h.expecting_to_receive) _ x.0 x.1 in
      let p = received_lem h.interface.datagrams_out h.expecting_to_receive left r in
      rw (none_left _ _ left k, append-nil) at p,
  λ p. (
    record h { interface = record (h.interface) { datagrams_out = [] }; expecting_to_receive = [] },
    rw (accepted_lem h.interface.datagrams_out h.expecting_to_receive v w p) refl,
    refl,
    refl,
  ),
)
