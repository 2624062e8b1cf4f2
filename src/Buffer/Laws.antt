-- ===== src/Buffer/Laws.antt =====
-- Buffer and BufferList of libsponge/util/buffer.cc beside the string that their pieces make.
use cs144_me.Prelude.{
  ℕ, zero, suc, ◌+◌, ◌-◌, ◌^◌, ◌≤◌, ◌<◌, ◌≡◌, refl, ap, sym, ◌∙◌, true, false, Option, none, some,
  List, [], ◌∷◌, length, drop, ltb, ◌==◌, if◌then◌else◌, arith, Bool-cases, ltb→lt, ltb_false→le,
  inl, inr, length-append, length-drop, drop-append_le, drop-append_ge,
}
use mathlib.Core.Path.{subst}
use native.Mathlib.Numerals.{unary_clauses}
use cs144_me.Prelude.Word.{add_size}
use cs144_me.Prelude.Result.{Result, ok, throw, out_of_range, ◌>>=◌}
use cs144_me.Buffer
use cs144_me.Buffer.{Buffer, str, view, used_up}
use cs144_me.Buffer.BufferList
use cs144_me.Buffer.BufferList.{BufferList, concatenate, append}
use cs144_me.Buffer.BufferViewList
use cs144_me.Buffer.BufferViewList.{of_list}

-- The offset is inside the string, whose length is a size_t.
abbrev pub Inside : Option (List ℕ) → ℕ → Type 0
Inside none n = Unit {0}
Inside (some s) n = (n ≤ length s) × (length s < 2 ^ 64)

abbrev pub IsValid : Buffer → Type 0
IsValid b = Inside b.storage b.starting_offset

drop-drop : (n m : ℕ) (xs : List ℕ) → drop m (drop n xs) ≡ drop (n + m) xs
drop-drop zero m xs = ap (λ k. drop k xs) (omega arith)
drop-drop (suc n) zero [] = simp unary_clauses
drop-drop (suc n) (suc m) [] = simp unary_clauses
drop-drop (suc n) m (x ∷ xs) =
    let e : suc (n + m) ≡ suc n + m = omega arith in drop-drop n m xs ∙ ap (λ k. drop k (x ∷ xs)) e

drop-nil : (n : ℕ) (xs : List ℕ) → length xs ≤ n → drop n xs ≡ []
drop-nil zero [] h = refl
drop-nil zero (x ∷ xs) h = absurd (omega arith)
drop-nil (suc n) [] h = refl
drop-nil (suc n) (x ∷ xs) h = drop-nil n xs (omega arith)

-- The storage after a cut that ends at the offset.
abbrev left_over : Option (List ℕ) → ℕ → Option (List ℕ)
left_over st o = if used_up st o then none else st

cut_lem :
    (st : Option (List ℕ)) (o n : ℕ)
    → Inside st o
    → n ≤ length (view st o)
    → (view (left_over st (add_size o n)) (add_size o n) ≡ drop n (view st o))
      × Inside (left_over st (add_size o n)) (add_size o n)
cut_lem none o zero v h = (refl, tt)
cut_lem none o (suc n) v h = (refl, tt)
cut_lem (some s) o n v h = elim (Bool-cases (add_size o n == length s)) [
  | inl e ↦ rw e (sym (drop-nil n (drop o s) (ground (arith, length-drop o s))), tt)
  | inr e ↦ rw (e, sum) (sym (drop-drop o n s), (omega (arith, length-drop o s), v.1))
]
  where
    sum : add_size o n ≡ o + n
    sum = omega (arith, length-drop o s)

pub remove_prefix_lem :
    (b : Buffer) (n : ℕ)
    → IsValid b
    → n ≤ length (str b)
    → (b' : Buffer) × (Buffer.remove_prefix b n ≡ ok b') × (str b' ≡ drop n (str b)) × IsValid b'
unfolding Buffer.remove_prefix str
remove_prefix_lem b n v h =
    let c = cut_lem b.storage b.starting_offset n v h in (_, ground arith, c.0, c.1)

abbrev pub AllValid : BufferList → Type 0
AllValid [] = Unit {0}
AllValid (b ∷ l) = IsValid b × AllValid l

pub size_lem : (l : BufferList) → BufferList.size l ≡ length (concatenate l)
unfolding BufferList.size concatenate
size_lem [] = refl
size_lem (b ∷ l) = omega (arith, size_lem l, length-append (str b) (concatenate l))

-- What a cut of n bytes must give: the rest of the string, or an exception if it is too short.
pub data Cut (l : BufferList) (n : ℕ) (r : Result BufferList) : Type 0 where
  fits :
      (l' : BufferList)
      → n ≤ length (concatenate l)
      → r ≡ ok l'
      → concatenate l' ≡ drop n (concatenate l)
      → AllValid l'
      → Cut l n r
  too_long : length (concatenate l) < n → r ≡ throw out_of_range → Cut l n r

Cut-here :
    (b : Buffer) (l : BufferList) (n : ℕ)
    → AllValid (b ∷ l)
    → n < length (str b)
    → Cut (b ∷ l) n (Buffer.remove_prefix b n >>= λ b'. ok (b' ∷ l))
unfolding concatenate
Cut-here b l n v h =
    let (b', e, c, v') = remove_prefix_lem b n v.0 (omega arith) in
    fits (b' ∷ l) (omega (arith, length-append (str b) (concatenate l))) (rw e refl)
      (rw c (sym (drop-append_le n (str b) (concatenate l) (omega arith)))) (v', v.1)

Cut-later :
    (b : Buffer) (l : BufferList) (n : ℕ) (r : Result BufferList)
    → length (str b) ≤ n
    → Cut l (n - length (str b)) r
    → Cut (b ∷ l) n r
unfolding concatenate
Cut-later b l n r h (fits l' k e c v) =
    fits l' (omega (arith, length-append (str b) (concatenate l))) e
      (c ∙ sym (drop-append_ge n (str b) (concatenate l) h)) v
Cut-later b l n r h (too_long k e) =
    too_long (omega (arith, length-append (str b) (concatenate l))) e

-- Of pieces inside their strings, remove_prefix throws out of range if the whole string is shorter
-- than n, and otherwise leaves pieces inside their strings that make the string without its first n
-- bytes.
pub remove_prefix-concatenate :
    (l : BufferList) (n : ℕ) → AllValid l → Cut l n (BufferList.remove_prefix l n)
unfolding BufferList.remove_prefix concatenate
remove_prefix-concatenate [] zero v = fits [] (omega arith) refl refl tt
remove_prefix-concatenate [] (suc n) v = too_long (omega arith) (ground arith)
remove_prefix-concatenate (b ∷ l) zero v = fits (b ∷ l) (omega arith) refl refl v
remove_prefix-concatenate (b ∷ l) (suc n) v = elim (Bool-cases (ltb (suc n) (length (str b)))) [
  | inl e ↦ subst (Cut (b ∷ l) (suc n)) (sym (here e)) (Cut-here b l (suc n) v (ltb→lt _ _ e))
  | inr e ↦ subst (Cut (b ∷ l) (suc n)) (sym (later e)) (
      Cut-later b l (suc n) _ (ltb_false→le _ _ e)
        (remove_prefix-concatenate l (suc n - length (str b)) v.1))
]
  where
    here :
        ltb (suc n) (length (str b)) ≡ true
        → BufferList.remove_prefix (b ∷ l) (suc n)
          ≡ (Buffer.remove_prefix b (suc n) >>= λ b'. ok (b' ∷ l))
    here e = rw e (ground arith)

    later :
        ltb (suc n) (length (str b)) ≡ false
        → BufferList.remove_prefix (b ∷ l) (suc n)
          ≡ BufferList.remove_prefix l (suc n - length (str b))
    later e = rw e (ground arith)

-- Cutting the views of pieces is cutting the pieces, whatever the length.
abbrev pub views_of : Result BufferList → Result (List (List ℕ))
views_of (ok l) = ok (of_list l)
views_of (throw e) = throw e

views_first :
    (b : Buffer) (l : BufferList) (n : ℕ)
    → IsValid b
    → n ≤ length (str b)
    → views_of (Buffer.remove_prefix b n >>= λ b'. ok (b' ∷ l)) ≡ ok (drop n (str b) ∷ of_list l)
unfolding of_list
views_first b l n v h = let (b', e, c, v') = remove_prefix_lem b n v h in rw (e, c) refl

-- Of pieces inside their strings, the views that BufferViewList keeps after a remove_prefix are the
-- views of the pieces that BufferList keeps after the same one, and one throws if the other does.
pub remove_prefix-of_list :
    (l : BufferList) (n : ℕ)
    → AllValid l
    → BufferViewList.remove_prefix (of_list l) n ≡ views_of (BufferList.remove_prefix l n)
unfolding BufferList.remove_prefix BufferViewList.remove_prefix of_list
remove_prefix-of_list [] n v = ground arith
remove_prefix-of_list (b ∷ l) n v = elim (Bool-cases (n == 0)) [
  | inl z ↦ rw z refl
  | inr z ↦ elim (Bool-cases (ltb n (length (str b)))) [
    | inl e ↦ rw (z, e) (sym (views_first b l n v.0 (omega (arith, ltb→lt _ _ e))))
    | inr e ↦ rw (z, e) (remove_prefix-of_list l (n - length (str b)) v.1)
  ]
]
