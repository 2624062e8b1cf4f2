-- ===== src/Router/Queues.antt =====
-- What a router of libsponge/router.cc does with one datagram and one queue, as lists.
use cs144_me.Prelude.{
  ℕ, zero, suc, ◌*◌, ◌≤◌, ◌<◌, ◌≡◌, refl, ap, sym, ◌∙◌, true, List, [], ◌∷◌, ◌++◌, some, length,
  get_elem?, set, ◌==◌, if◌then◌else◌, inl, inr, arith, Bool-cases, Option-cases,
}
use cs144_me.Prelude.Result.{Result, ok, ◌>>=◌}
use cs144_me.Prelude.Assoc.{lookup}
use cs144_me.Checksum
use cs144_me.Header.Arp
use cs144_me.Header.Ipv4.{
  Ipv4Header, Ipv4Datagram, serialize, fields, payload_length, serialize_datagram,
}
use cs144_me.Parser.{resize}
use cs144_me.Interface.{
  NetworkInterface, send_datagram, send_by_cache, send_to, request_address, may_request,
}
use cs144_me.Router.{AsyncNetworkInterface, queue_of, clear_queue}

-- A datagram that can be serialized.
abbrev pub IsSound : Ipv4Datagram → Type 0
IsSound d = (d.header.ver ≡ 4) × (5 ≤ d.header.hlen) × (length d.payload ≡ payload_length d.header)

abbrev pub AllSound : List Ipv4Datagram → Type 0
AllSound [] = Unit
AllSound (d ∷ ds) = IsSound d × AllSound ds

serialize_lem :
    (h : Ipv4Header) → h.ver ≡ 4 → 5 ≤ h.hlen → serialize h ≡ ok (resize (4 * h.hlen) (fields h))
unfolding serialize
serialize_lem h v k = rw v (ground arith)

-- A computation that throws nothing.
abbrev pub Returns : {A : Type 0} → Result A → Type 0
Returns {A = A} m = (a : A) × (m ≡ ok a)

Returns-bind :
    {A B : Type 0} (m : Result A) (f : A → Result B)
    → Returns m
    → ((a : A) → Returns (f a))
    → Returns (m >>= f)
Returns-bind m f (a, e) k = let (b, g) = k a in (b, rw e g)

serialize_datagram_lem : (d : Ipv4Datagram) → IsSound d → Returns (serialize_datagram d)
unfolding serialize_datagram
serialize_datagram_lem d (v, k, e) =
    let same : (length d.payload == payload_length d.header) ≡ true = ground (arith, e) in
    rw same (
      Returns-bind (serialize (record (d.header) { cksum = 0 })) _
        (_, serialize_lem (record (d.header) { cksum = 0 }) v k)
        (λ zeroed.
          let h = record (d.header) {
            cksum = Checksum.value (Checksum.add (Checksum.new 0) zeroed);
          } in
          Returns-bind (serialize h) _ (_, serialize_lem h v k)
            (λ filled. (filled ++ d.payload, refl))))

send_to_lem :
    (n : NetworkInterface) (dst : List ℕ) (d : Ipv4Datagram) → IsSound d → Returns (send_to n dst d)
unfolding send_to
send_to_lem n dst d s =
    Returns-bind (serialize_datagram d) _ (serialize_datagram_lem d s) (λ payload. (_, refl))

pub send_datagram_lem :
    (n : NetworkInterface) (d : Ipv4Datagram) (hop : ℕ)
    → IsSound d
    → Returns (send_datagram n d hop)
unfolding send_datagram send_by_cache request_address Arp.serialize Arp.supported
send_datagram_lem n d hop s = elim (Option-cases (lookup hop n.cache)) [
  | inl e ↦ elim (Bool-cases (may_request (lookup hop n.since_last_sent))) [
    | inl m ↦ rw (e, m) (_, refl)
    | inr m ↦ rw (e, m) (n, refl)
  ]
  | inr (dst, e) ↦ rw e (send_to_lem n dst d s)
]

pub length-set :
    (xs : List AsyncNetworkInterface) (i : ℕ) (a : AsyncNetworkInterface)
    → length (set xs i a) ≡ length xs
length-set [] i a = refl
length-set (x ∷ xs) zero a = refl
length-set (x ∷ xs) (suc i) a = ap suc (length-set xs i a)

pub queue-set :
    (xs : List AsyncNetworkInterface) (i j : ℕ) (a b : AsyncNetworkInterface)
    → get_elem? xs i ≡ some a
    → b.datagrams_out ≡ a.datagrams_out
    → queue_of (get_elem? (set xs i b) j) ≡ queue_of (get_elem? xs j)
queue-set [] i j a b e f = refl
queue-set (x ∷ xs) zero zero a b e f = f ∙ ap queue_of (sym e)
queue-set (x ∷ xs) zero (suc j) a b e f = refl
queue-set (x ∷ xs) (suc i) zero a b e f = refl
queue-set (x ∷ xs) (suc i) (suc j) a b e f = queue-set xs i j a b e f

pub elem_inside :
    (xs : List AsyncNetworkInterface) (i : ℕ)
    → i < length xs
    → (a : AsyncNetworkInterface) × (get_elem? xs i ≡ some a)
elem_inside [] i h = absurd (omega arith)
elem_inside (x ∷ xs) zero h = (x, refl)
elem_inside (x ∷ xs) (suc i) h = elem_inside xs i (omega arith)

pub queue_outside :
    (xs : List AsyncNetworkInterface) (i : ℕ) → length xs ≤ i → queue_of (get_elem? xs i) ≡ []
queue_outside [] i h = refl
queue_outside (x ∷ xs) zero h = absurd (omega arith)
queue_outside (x ∷ xs) (suc i) h = queue_outside xs i (omega arith)

pub length-clear_queue :
    (xs : List AsyncNetworkInterface) (i : ℕ) → length (clear_queue xs i) ≡ length xs
length-clear_queue [] i = refl
length-clear_queue (x ∷ xs) zero = refl
length-clear_queue (x ∷ xs) (suc i) = ap suc (length-clear_queue xs i)

suc_equal : (i j : ℕ) → (i == j) ≡ (suc i == suc j)
suc_equal i j = ground arith

pub queue-clear_queue :
    (xs : List AsyncNetworkInterface) (i j : ℕ)
    → queue_of (get_elem? (clear_queue xs i) j) ≡ (if i == j then [] else queue_of (get_elem? xs j))
queue-clear_queue [] i j = ground arith
queue-clear_queue (x ∷ xs) zero zero = refl
queue-clear_queue (x ∷ xs) zero (suc j) = ground arith
queue-clear_queue (x ∷ xs) (suc i) zero = ground arith
queue-clear_queue (x ∷ xs) (suc i) (suc j) =
    queue-clear_queue xs i j ∙ ap (λ b. if b then [] else queue_of (get_elem? xs j)) (suc_equal i j)
