-- ===== src/Router/Forward.antt =====
-- What a router of libsponge/router.cc is to do with a list of datagrams, interface by interface, and
-- that the loop over one queue does it.
use cs144_me.Prelude.{
  ℕ, zero, suc, ◌-◌, ◌<◌, ◌≡◌, refl, ap, sym, ◌∙◌, true, false, ◌&&◌, Option, none, some, List, [],
  ◌∷◌, ◌++◌, append_assoc, length, get_elem?, set, ltb, leb, ◌==◌, if◌then◌else◌, inl, inr, arith,
  Bool-cases,
}
use cs144_me.Prelude.Result.{Result, ok, throw, ◌>>=◌}
use cs144_me.Prelude.Assoc.{Assoc, leaf, entry, lookup}
use cs144_me.Header.Ipv4.{Ipv4Datagram, payload_length}
use cs144_me.Interface.{NetworkInterface, send_datagram}
use cs144_me.Router.{
  AsyncNetworkInterface, Router, Best, no_match, or_else, consider, find_route, send_on,
  route_one_datagram, route_queue, queue_of,
}
use cs144_me.Router.Queues.{
  AllSound, IsSound, elem_inside, length-set, queue-set, send_datagram_lem,
}

-- The route of a datagram.
abbrev pub route_of : Router → Ipv4Datagram → Best
route_of r d = find_route r d.header.dst r.len_map no_match

-- What interface j is to send of one datagram, and to which next hop: the datagram with one hop less
-- to live, if its route leads there and it has more than one left.
abbrev pub forwarded : Router → ℕ → Ipv4Datagram → List (Ipv4Datagram × ℕ)
forwarded r j d =
    if ltb 1 d.header.ttl && (route_of r d).itf == j
    then (
      record d { header = record (d.header) { ttl = d.header.ttl - 1 } },
      (route_of r d).next_hop,
    )
      ∷ []
    else []

abbrev pub for_interface : Router → ℕ → List Ipv4Datagram → List (Ipv4Datagram × ℕ)
for_interface r j [] = []
for_interface r j (d ∷ ds) = forwarded r j d ++ for_interface r j ds

-- An interface that sends some datagrams, one after the other.
abbrev pub send_each : NetworkInterface → List (Ipv4Datagram × ℕ) → Result NetworkInterface
send_each n [] = ok n
send_each n (x ∷ xs) = send_datagram n x.0 x.1 >>= λ n'. send_each n' xs

abbrev pub interface_of : Option AsyncNetworkInterface → Option NetworkInterface
interface_of none = none
interface_of (some a) = some a.interface

-- Each interface has sent what it is to send of the datagrams.
abbrev pub Moves :
    Router → List Ipv4Datagram → List AsyncNetworkInterface → List AsyncNetworkInterface → Type 0
Moves r ds xs ys =
    (j : ℕ) (n : NetworkInterface)
    → interface_of (get_elem? xs j) ≡ some n
    → (n' : NetworkInterface) × (send_each n (for_interface r j ds) ≡ ok n')
      × (interface_of (get_elem? ys j) ≡ some n')

bind_same :
    {A B C : Type 0} (m : Result A) (f : A → Result C) (g : A → Result B) (k : B → Result C)
    → ((a : A) → f a ≡ (g a >>= k))
    → (m >>= f) ≡ ((m >>= g) >>= k)
bind_same (ok a) f g k h = h a
bind_same (throw e) f g k h = refl

send_each-append :
    (n : NetworkInterface) (xs ys : List (Ipv4Datagram × ℕ))
    → send_each n (xs ++ ys) ≡ (send_each n xs >>= λ n'. send_each n' ys)
send_each-append n [] ys = refl
send_each-append n (x ∷ xs) ys =
    bind_same (send_datagram n x.0 x.1) (λ n'. send_each n' (xs ++ ys)) (λ n'. send_each n' xs)
      (λ n'. send_each n' ys) (λ n'. send_each-append n' xs ys)

for_interface-append :
    (r : Router) (j : ℕ) (as' bs : List Ipv4Datagram)
    → for_interface r j (as' ++ bs) ≡ for_interface r j as' ++ for_interface r j bs
for_interface-append r j [] bs = refl
for_interface-append r j (a ∷ as') bs =
    ap (λ l. forwarded r j a ++ l) (for_interface-append r j as' bs)
    ∙ sym (append_assoc (forwarded r j a) (for_interface r j as') (for_interface r j bs))

pub Moves-trans :
    (r : Router) (as' bs : List Ipv4Datagram) (xs ys zs : List AsyncNetworkInterface)
    → Moves r as' xs ys
    → Moves r bs ys zs
    → Moves r (as' ++ bs) xs zs
Moves-trans r as' bs xs ys zs p q j n h =
    let (n1, e, h1) = p j n h in
    let (n2, f, h2) = q j n1 h1 in
    (
      n2,
      rw (for_interface-append r j as' bs)
          (send_each-append n (for_interface r j as') (for_interface r j bs) ∙ rw e f),
      h2,
    )

interface-set :
    (xs : List AsyncNetworkInterface) (i : ℕ) (a b : AsyncNetworkInterface)
    → get_elem? xs i ≡ some a
    → interface_of (get_elem? (set xs i b) i) ≡ some b.interface
interface-set [] i a b e = absurd (ground arith)
interface-set (x ∷ xs) zero a b e = refl
interface-set (x ∷ xs) (suc i) a b e = interface-set xs i a b e

interface-set_other :
    (xs : List AsyncNetworkInterface) (i j : ℕ) (b : AsyncNetworkInterface)
    → (i == j) ≡ false
    → interface_of (get_elem? (set xs i b) j) ≡ interface_of (get_elem? xs j)
interface-set_other [] i j b e = refl
interface-set_other (x ∷ xs) zero zero b e = absurd (ground arith)
interface-set_other (x ∷ xs) zero (suc j) b e = refl
interface-set_other (x ∷ xs) (suc i) zero b e = refl
interface-set_other (x ∷ xs) (suc i) (suc j) b e = interface-set_other xs i j b (ground (arith, e))

-- The same router with other interfaces.
abbrev pub at : Router → List AsyncNetworkInterface → Router
at r xs = record r { interfaces = xs }

find_route-at :
    (r : Router) (xs : List AsyncNetworkInterface) (addr : ℕ) (m : Assoc ℕ) (best : Best)
    → find_route (at r xs) addr m best ≡ find_route r addr m best
unfolding find_route consider
find_route-at r xs addr leaf best = refl
find_route-at r xs addr (entry prefix len m) best =
    find_route-at r xs addr m (consider r addr prefix len best)

-- Every interface that a route names exists, among so many.
abbrev pub IsRouted : Router → ℕ → Type 0
IsRouted r count = (prefix : ℕ) → or_else 0 (lookup prefix r.itf_map) < count

find_route-inside :
    (r : Router) (count : ℕ)
    → IsRouted r count
    → (addr : ℕ) (m : Assoc ℕ) (best : Best) → best.itf < count
    → (find_route r addr m best).itf < count
unfolding find_route consider
find_route-inside r count h addr leaf best k = k
find_route-inside r count h addr (entry prefix len m) best k =
    find_route-inside r count h addr m (consider r addr prefix len best) (ground (arith, h prefix))

pub some_same : {x y : NetworkInterface} → some x ≡ some y → x ≡ y
some_same {x} {y} e = ap (or_that x) e
  where
    or_that : NetworkInterface → Option NetworkInterface → NetworkInterface
    or_that d none = d
    or_that d (some v) = v

-- What the loop over one queue leaves: as many interfaces, the same queues, and all sent.
pub record Forwarded (r : Router) (ds : List Ipv4Datagram) (xs ys : List AsyncNetworkInterface)
    : Type 0 where
  pub size : length ys ≡ length xs
  pub queues : (j : ℕ) → queue_of (get_elem? ys j) ≡ queue_of (get_elem? xs j)
  pub moves : Moves r ds xs ys

module _ (r : Router) (xs : List AsyncNetworkInterface) (d : Ipv4Datagram) where
  abbrev aged : Ipv4Datagram
  aged = record d { header = record (d.header) { ttl = d.header.ttl - 1 } }

  dropped-Forwarded : ltb 1 d.header.ttl ≡ false → Forwarded r (d ∷ []) xs xs
  dropped-Forwarded k = record {
    size = refl;
    queues = λ j. refl;
    moves = λ j n h. (n, rw k refl, h);
  }

  sent-Forwarded :
      (a : AsyncNetworkInterface) (n : NetworkInterface)
      → ltb 1 d.header.ttl ≡ true
      → get_elem? xs (route_of r d).itf ≡ some a
      → send_datagram a.interface aged (route_of r d).next_hop ≡ ok n
      → Forwarded r (d ∷ []) xs (set xs (route_of r d).itf (record a { interface = n }))
  sent-Forwarded a n k e f = record {
    size = length-set xs (route_of r d).itf (record a { interface = n });
    queues = λ j. queue-set xs (route_of r d).itf j a (record a { interface = n }) e refl;
    moves = λ j m h. elim (Bool-cases ((route_of r d).itf == j)) [
      | inl g ↦
          let here : (route_of r d).itf ≡ j = ground (arith, g) in
          let same : a.interface ≡ m =
            some_same
              (sym (ap interface_of e) ∙ ap (λ i. interface_of (get_elem? xs i)) here ∙ h) in
          (
            n,
            rw (k, g)
                (ap (λ x. send_each x ((aged, (route_of r d).next_hop) ∷ [])) (sym same)
                  ∙ rw f refl),
            ap
                  (λ i.
                    interface_of
                      (get_elem? (set xs (route_of r d).itf (record a { interface = n })) i))
                  (sym here)
                ∙ interface-set xs (route_of r d).itf a (record a { interface = n }) e,
          )
      | inr g ↦ (
        m,
        rw (k, g) refl,
        interface-set_other xs (route_of r d).itf j (record a { interface = n }) g ∙ h,
      )
    ];
  }

  pub route_one_datagram_lem :
      IsRouted r (length xs)
      → IsSound d
      → (ys : List AsyncNetworkInterface) × (route_one_datagram (at r xs) d ≡ ok (at r ys))
        × Forwarded r (d ∷ []) xs ys
  unfolding route_one_datagram send_on payload_length
  route_one_datagram_lem h s =
      let same = find_route-at r xs d.header.dst r.len_map no_match in
      let inside =
        find_route-inside r (length xs) h d.header.dst r.len_map no_match (omega (arith, h 0)) in
      let (a, e) = elem_inside xs (route_of r d).itf inside in
      let (n, f) = send_datagram_lem a.interface aged (route_of r d).next_hop s in
      elim (Bool-cases (leb d.header.ttl 1)) [
        | inl k ↦ (xs, rw k refl, dropped-Forwarded (ground (arith, k)))
        | inr k ↦ (
          set xs (route_of r d).itf (record a { interface = n }),
          rw (k, same, e, f) refl,
          sent-Forwarded a n (ground (arith, k)) e f,
        )
      ]

pub route_queue_lem :
    (r : Router) (xs : List AsyncNetworkInterface) (ds : List Ipv4Datagram)
    → IsRouted r (length xs)
    → AllSound ds
    → (ys : List AsyncNetworkInterface) × (route_queue (at r xs) ds ≡ ok (at r ys))
      × Forwarded r ds xs ys
unfolding route_queue
route_queue_lem r xs [] h s =
    (xs, refl, record { size = refl; queues = λ j. refl; moves = λ j n k. (n, refl, k) })
route_queue_lem r xs (d ∷ ds) h s =
    let (ys, e, p) = route_one_datagram_lem r xs d h s.0 in
    let (zs, f, q) = route_queue_lem r ys ds (λ prefix. omega (arith, h prefix, p.size)) s.1 in
    (
      zs,
      rw (e, f) refl,
      record {
        size = q.size ∙ p.size;
        queues = λ j. q.queues j ∙ p.queues j;
        moves = Moves-trans r (d ∷ []) ds xs ys zs p.moves q.moves;
      },
    )
