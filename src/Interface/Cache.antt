-- ===== src/Interface/Cache.antt =====
-- The ARP cache of libsponge/network_interface.cc: how long an address that was learnt stays.
use cs144_me.Prelude.{
  ℕ, ◌+◌, ◌^◌, ◌≤◌, ◌<◌, ◌≡◌, refl, ap, sym, ◌∙◌, Bool, true, false, Option, none, some, List, [],
  ◌∷◌, ltb, leb, if◌then◌else◌, arith, Bool-cases, inl, inr, leb→le, leb_false→lt,
}
use cs144_me.Prelude.Word.{add_size}
use cs144_me.Prelude.Assoc.{Assoc, leaf, entry, lookup, insert, erase, lookup-insert, lookup-erase}
use cs144_me.Header.Ethernet.{EthernetAddress}
use cs144_me.Header.Arp.{ArpMessage}
use cs144_me.Interface.{NetworkInterface, cache_timeout, age, evict, tick, learn}

-- No key occurs twice.
abbrev pub Unique {ℓ} : {V : Type ℓ} → Assoc V → Type ℓ
Unique leaf = Unit {ℓ}
Unique (entry k v m) = (lookup k m ≡ none) × Unique m

pub insert-Unique {ℓ} :
    {V : Type ℓ} (k : ℕ) (v : V) (m : Assoc V) → Unique m → Unique (insert k v m)
unfolding insert lookup
insert-Unique k v leaf u = (refl, tt)
insert-Unique k v (entry j w m) u = ground (arith, insert-Unique k v m u.1, lookup-insert k j v m)

-- What is left of a time after a tick.
abbrev pub aged : ℕ → ℕ → Option ℕ → Option ℕ
aged limit ms none = none
aged limit ms (some t) = if leb limit (add_size t ms) then none else some (add_size t ms)

pub lookup-age :
    (k limit ms : ℕ) (m : Assoc ℕ)
    → Unique m
    → lookup k (age limit ms m) ≡ aged limit ms (lookup k m)
unfolding lookup age
lookup-age k limit ms leaf u = refl
lookup-age k limit ms (entry j t m) u = ground (arith, lookup-age k limit ms m u.1, u.0)

pub age-Unique : (limit ms : ℕ) (m : Assoc ℕ) → Unique m → Unique (age limit ms m)
unfolding age
age-Unique limit ms leaf u = tt
age-Unique limit ms (entry j t m) u =
    ground (arith, age-Unique limit ms m u.1, lookup-age j limit ms m u.1, u.0)

-- What is left of a cached address after a tick, by its time.
abbrev kept : ℕ → Option ℕ → Option EthernetAddress → Option EthernetAddress
kept ms none e = e
kept ms (some t) e = if leb cache_timeout (add_size t ms) then none else e

lookup-evict :
    (k ms : ℕ) (m : Assoc ℕ) (cache : Assoc EthernetAddress)
    → Unique m
    → lookup k (evict ms m cache) ≡ kept ms (lookup k m) (lookup k cache)
unfolding lookup evict
lookup-evict k ms leaf cache u = refl
lookup-evict k ms (entry j t m) cache u = ground (
  arith,
  lookup-evict k ms m (if leb cache_timeout (add_size t ms) then erase j cache else cache) u.1,
  lookup-erase j k cache,
  u.0,
)

-- The time of an address and the address itself, with the keys of the times distinct.
abbrev pub Entry : NetworkInterface → ℕ → Option ℕ → Option EthernetAddress → Type 0
Entry n ip t e = Unique n.cache_time × (lookup ip n.cache_time ≡ t) × (lookup ip n.cache ≡ e)

tick-Entry :
    (n : NetworkInterface) (ip ms : ℕ) (t : Option ℕ) (e : Option EthernetAddress)
    → Entry n ip t e
    → Entry (tick n ms) ip (aged cache_timeout ms t) (kept ms t e)
unfolding tick
tick-Entry n ip ms t e (u, p, q) = (
  age-Unique cache_timeout ms n.cache_time u,
  lookup-age ip cache_timeout ms n.cache_time u ∙ ap (aged cache_timeout ms) p,
  lookup-evict ip ms n.cache_time n.cache u ∙ rw (p, q) refl,
)

unfoldable pub ticks : NetworkInterface → List ℕ → NetworkInterface
ticks n [] = n
ticks n (ms ∷ times) = ticks (tick n ms) times

abbrev pub sum : List ℕ → ℕ
sum [] = 0
sum (x ∷ xs) = x + sum xs

pub ticks_gone :
    (n : NetworkInterface) (ip : ℕ) (times : List ℕ)
    → Entry n ip none none
    → lookup ip (ticks n times).cache ≡ none
unfolding ticks
ticks_gone n ip [] h = h.2
ticks_gone n ip (ms ∷ times) h = ticks_gone (tick n ms) ip times (tick-Entry n ip ms none none h)

ticks_known :
    (n : NetworkInterface) (ip t : ℕ) (e : EthernetAddress) (times : List ℕ)
    → Entry n ip (some t) (some e)
    → t < cache_timeout
    → t + sum times < 2 ^ 64
    → lookup ip (ticks n times).cache ≡ (if ltb (t + sum times) cache_timeout then some e else none)
unfolding ticks
ticks_known n ip t e [] h k w = h.2 ∙ ground arith
ticks_known n ip t e (ms ∷ times) h k w = elim (Bool-cases (leb cache_timeout (t + ms))) [
  | inl late ↦
      ticks_gone (tick n ms) ip times (u, p ∙ rw (same, late) refl, q ∙ rw (same, late) refl)
      ∙ sym (rw (sum_late (leb→le _ _ late)) refl)
  | inr early ↦
      ticks_known (tick n ms) ip (t + ms) e times
        (u, p ∙ rw (same, early) refl, q ∙ rw (same, early) refl) (leb_false→lt _ _ early)
        (omega arith)
      ∙ ap (λ x. if ltb x cache_timeout then some e else none) (omega arith)
]
  where
    same : add_size t ms ≡ t + ms
    same = omega arith

    next : Entry (tick n ms) ip (aged cache_timeout ms (some t)) (kept ms (some t) (some e))
    next = tick-Entry n ip ms (some t) (some e) h

    u : Unique (tick n ms).cache_time
    u = next.0

    p : lookup ip (tick n ms).cache_time ≡ aged cache_timeout ms (some t)
    p = next.1

    q : lookup ip (tick n ms).cache ≡ kept ms (some t) (some e)
    q = next.2

    sum_late : cache_timeout ≤ t + ms → ltb (t + (ms + sum times)) cache_timeout ≡ false
    sum_late l = ground arith

learn-Entry :
    (n : NetworkInterface) (am : ArpMessage)
    → Unique n.cache_time
    → Entry (learn n am) am.sender_ip_address (some 0) (some am.sender_ethernet_address)
unfolding learn
learn-Entry n am u = (
  insert-Unique am.sender_ip_address 0 n.cache_time u,
  ground (arith, lookup-insert am.sender_ip_address am.sender_ip_address 0 n.cache_time),
  ground (
    arith,
    lookup-insert am.sender_ip_address am.sender_ip_address am.sender_ethernet_address n.cache,
  ),
)

-- With distinct keys in the map of times: the address of the sender of an ARP message is in the
-- cache through any ticks that make less than 30 seconds together, and gone after any that make
-- that much or more (their sum below 2 ^ 64).
pub learn_expires :
    (n : NetworkInterface) (am : ArpMessage) (times : List ℕ)
    → Unique n.cache_time
    → sum times < 2 ^ 64
    → lookup am.sender_ip_address (ticks (learn n am) times).cache
      ≡ (if ltb (sum times) cache_timeout then some am.sender_ethernet_address else none)
learn_expires n am times u h =
    ticks_known (learn n am) am.sender_ip_address 0 am.sender_ethernet_address times
      (learn-Entry n am u) (omega arith) (omega arith)
    ∙ ap (λ x. if ltb x cache_timeout then some am.sender_ethernet_address else none) (omega arith)

-- Do an address and its time come and go together?
abbrev pub both {ℓ κ} : {A : Type ℓ} {B : Type κ} → Option A → Option B → Bool
both none none = true
both (some a) (some b) = true
both _ _ = false

-- The cache and its times hold the same keys, each once.
pub record Agree (n : NetworkInterface) : Type 0 where
  pub unique : Unique n.cache_time
  pub same : (ip : ℕ) → both (lookup ip n.cache) (lookup ip n.cache_time) ≡ true

pub tick-Agree : (n : NetworkInterface) (ms : ℕ) → Agree n → Agree (tick n ms)
unfolding tick
tick-Agree n ms v = record {
  unique = age-Unique cache_timeout ms n.cache_time v.unique;
  same = λ ip. ground (
    arith,
    v.same ip,
    lookup-age ip cache_timeout ms n.cache_time v.unique,
    lookup-evict ip ms n.cache_time n.cache v.unique,
  );
}

pub learn-Agree : (n : NetworkInterface) (am : ArpMessage) → Agree n → Agree (learn n am)
unfolding learn
learn-Agree n am v = record {
  unique = insert-Unique am.sender_ip_address 0 n.cache_time v.unique;
  same = λ ip. ground (
    arith,
    v.same ip,
    lookup-insert am.sender_ip_address ip 0 n.cache_time,
    lookup-insert am.sender_ip_address ip am.sender_ethernet_address n.cache,
  );
}
