-- ===== src/Channel/Carry.antt =====
-- What the segments of a TCPSender (libsponge/tcp_sender.cc) carry of its stream.
use cs144_me.Prelude.{
  ℕ, ◌+◌, ◌-◌, ◌≤◌, ◌≡◌, Bool, true, Option, none, some, List, [], ◌∷◌, ◌++◌, length, get_elem?,
  zero, suc, ◌==◌, arith,
}
use cs144_me.Wrapping.{WrappingInt32, wrap}
use cs144_me.Header.Tcp.{TcpSegment}
use cs144_me.Reassembler.Slice.{slice}

-- The segment starts at some number of the stream: the SYN at 0, or the byte before that number. Its
-- payload is what the stream has there, `written` bytes at most, and a FIN comes after all of them.
pub record Carries (src : ℕ → ℕ) (isn : WrappingInt32) (written : ℕ) (ended : Bool)
    (seg : TcpSegment) : Type 0 where
  pub from : ℕ
  pub seqno : seg.header.seqno ≡ wrap from isn
  pub syn : seg.header.syn ≡ (from == 0)
  pub payload : seg.payload ≡ slice src (from - 1) (length seg.payload)
  pub within : from - 1 + length seg.payload ≤ written
  pub fin : seg.header.fin ≡ true → (ended ≡ true) × (from - 1 + length seg.payload ≡ written)

-- Every element satisfies P.
abbrev pub All : {A : Type 0} → (A → Type 0) → List A → Type 0
All P [] = Unit
All P (x ∷ xs) = P x × All P xs

module _ {A : Type 0} (P : A → Type 0) where
  pub All-append : (xs ys : List A) → All P xs → All P ys → All P (xs ++ ys)
  All-append [] ys p q = q
  All-append (x ∷ xs) ys p q = (p.0, All-append xs ys p.1 q)

  pub All-map : (Q : A → Type 0) (xs : List A) → ((x : A) → P x → Q x) → All P xs → All Q xs
  All-map Q [] f p = tt
  All-map Q (x ∷ xs) f p = (f x p.0, All-map Q xs f p.1)

  -- What a list that is read at any index gives.
  abbrev pub IfSome : Option A → Type 0
  IfSome none = Unit
  IfSome (some x) = P x

  pub All-get : (xs : List A) (i : ℕ) → All P xs → IfSome (get_elem? xs i)
  All-get [] i p = tt
  All-get (x ∷ xs) zero p = p.0
  All-get (x ∷ xs) (suc i) p = All-get xs i p.1

-- The stream has grown, or ended, since.
pub record Later (written : ℕ) (ended : Bool) (written' : ℕ) (ended' : Bool) : Type 0 where
  pub grows : written ≤ written'
  pub stays : ended ≡ true → (ended' ≡ true) × (written ≡ written')

pub Later-Carries :
    (src : ℕ → ℕ) (isn : WrappingInt32) {w w' : ℕ} {e e' : Bool}
    → Later w e w' e'
    → (seg : TcpSegment) → Carries src isn w e seg
    → Carries src isn w' e' seg
Later-Carries src isn l seg c = record {
  from = c.from;
  seqno = c.seqno;
  syn = c.syn;
  payload = c.payload;
  within = omega (arith, c.within, l.grows);
  fin = λ f. ((l.stays (c.fin f).0).0, omega (arith, (c.fin f).1, (l.stays (c.fin f).0).1));
}
