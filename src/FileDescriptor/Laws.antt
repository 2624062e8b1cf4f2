-- ===== src/FileDescriptor/Laws.antt =====
-- `write` of libsponge/util/file_descriptor.cc with a kernel that takes some bytes each time.
use cs144_me.Prelude.{
  ℕ, zero, suc, ◌+◌, ◌-◌, ◌^◌, ◌≤◌, ◌<◌, ◌≡◌, refl, ap, sym, ◌∙◌, true, false, ◌&&◌, Option, none,
  some, List, [], ◌∷◌, ◌++◌, min, length, take, drop, length-append, length-drop, drop-append_le,
  drop-append_ge, ltb, ◌==◌, arith, Bool-cases, inl, inr, append_assoc, take-append-drop, take_all,
}
use cs144_me.Prelude.Word.{add_u32}
use cs144_me.Prelude.Result.{ok, throw, runtime_error, IfOk, IfOk-bind, any_ok, if-both}
use cs144_me.Buffer.BufferViewList
use cs144_me.Buffer.BufferViewList.{BufferViewList, as_iovecs}
use cs144_me.FileDescriptor.{
  FileDescriptor, Written, shown, taken_by, system_call, mark_eof, buffer_size, register_read,
  register_write, read, read_answer, rest_of, write_round, write_loop, write,
}

-- The string that the views make.
abbrev pub text : BufferViewList → List ℕ
text l = shown (as_iovecs l)

size_lem : (l : BufferViewList) → BufferViewList.size l ≡ length (text l)
unfolding BufferViewList.size as_iovecs
size_lem [] = refl
size_lem (v ∷ l) = omega (arith, size_lem l, length-append v (text l))

nought : (n : ℕ) → (n == 0) ≡ true → n ≡ 0
nought n h = ground arith

remove_prefix-text :
    (l : BufferViewList) (n : ℕ)
    → n ≤ length (text l)
    → (l' : BufferViewList) × (BufferViewList.remove_prefix l n ≡ ok l')
      × (text l' ≡ drop n (text l))
unfolding BufferViewList.remove_prefix as_iovecs
remove_prefix-text [] zero h = ([], refl, refl)
remove_prefix-text [] (suc n) h = absurd (omega arith)
remove_prefix-text (v ∷ l) n h = elim (Bool-cases (n == 0)) [
  | inl z ↦ (v ∷ l, ground arith, sym (ap (λ k. drop k (text (v ∷ l))) (nought n z)))
  | inr z ↦ elim (Bool-cases (ltb n (length v))) [
    | inl e ↦ (drop n v ∷ l, ground arith, sym (drop-append_le n v (text l) (ground arith)))
    | inr e ↦
        let (l', q, t) =
          remove_prefix-text l (n - length v) (omega (arith, length-append v (text l))) in
        (l', ground (arith, q), t ∙ sym (drop-append_ge n v (text l) (ground arith)))
  ]
]

-- The kernel answers every call, and takes some of what there is.
pub record IsTaking (kernel : ℕ → ℕ → Option ℕ) : Type 0 where
  pub answer : ℕ → ℕ → ℕ
  pub answers : (i m : ℕ) → kernel i m ≡ some (answer i m)
  pub most : (i m : ℕ) → answer i m ≤ m
  pub least : (i m : ℕ) → 0 < m → 0 < answer i m

round_lem :
    (w : Written) (l : BufferViewList) (n : ℕ)
    → n ≤ length (text l)
    → (0 < length (text l) → 0 < n)
    → length (text l) < 2 ^ 31
    → (l' : BufferViewList) × (write_round w l (some n) ≡ ok (taken_by w l n, l'))
      × (text l' ≡ drop n (text l))
unfolding write_round system_call
round_lem w l n h p s =
    let (l', q, t) = remove_prefix-text l n h in (l', ground (arith, q, size_lem l), t)

step_done :
    (kernel : ℕ → ℕ → Option ℕ) (fuel i : ℕ) (w w' : Written) (l l' : BufferViewList)
    → write_round w l (kernel i (BufferViewList.size l)) ≡ ok (w', l')
    → (BufferViewList.size l' == 0) ≡ true
    → write_loop kernel true (suc fuel) i w l ≡ ok w'
unfolding write_loop
step_done kernel fuel i w w' l l' q z = rw (q, z) refl

step_more :
    (kernel : ℕ → ℕ → Option ℕ) (fuel i : ℕ) (w w' : Written) (l l' : BufferViewList)
    → write_round w l (kernel i (BufferViewList.size l)) ≡ ok (w', l')
    → (BufferViewList.size l' == 0) ≡ false
    → write_loop kernel true (suc fuel) i w l ≡ write_loop kernel true fuel (suc i) w' l'
unfolding write_loop
step_more kernel fuel i w w' l l' q z = rw (q, z) refl

abbrev pub written : ℕ → FileDescriptor → List ℕ → Written
written n d xs = record { total = n; descriptor = d; taken = xs }

written_eq :
    {d : FileDescriptor} {n m : ℕ} {xs ys : List ℕ}
    → n ≡ m
    → xs ≡ ys
    → ok (written n d xs) ≡ ok (written m d ys)
written_eq p q = rw (p, q) refl

loop_lem :
    (kernel : ℕ → ℕ → Option ℕ) (t : IsTaking kernel) (fuel i : ℕ) (w : Written)
    (l : BufferViewList)
    → length (text l) < fuel
    → w.total + length (text l) < 2 ^ 31
    → (d : FileDescriptor) × (write_loop kernel true fuel i w l
        ≡ ok (record {
          total = w.total + length (text l);
          descriptor = d;
          taken = w.taken ++ text l;
        }))
loop_lem kernel t zero i w l f s = absurd (omega arith)
loop_lem kernel t (suc fuel) i w l f s =
    let n : ℕ = t.answer i (length (text l)) in
    let (l', q, e) =
      round_lem w l n (t.most i (length (text l))) (t.least i (length (text l))) (omega arith) in
    let most : n ≤ length (text l) = t.most i (length (text l)) in
    let size : length (text l') ≡ length (text l) - n = ap length e ∙ length-drop n (text l) in
    let round : write_round w l (kernel i (BufferViewList.size l)) ≡ ok (taken_by w l n, l') =
      ap (λ m. write_round w l (kernel i m)) (size_lem l)
      ∙ ap (write_round w l) (t.answers i (length (text l)))
      ∙ q in
    elim (Bool-cases (BufferViewList.size l' == 0)) [
      | inl z ↦
          let last : n ≡ length (text l) = omega (arith, size_lem l', nought _ z, size, most) in
          (
            register_write w.descriptor,
            step_done kernel fuel i w _ l l' round z
                ∙ written_eq (omega (arith, last))
                    (ap (λ x. w.taken ++ x) (take_all n (text l) (omega (arith, last)))),
          )
      | inr m ↦
          let some_left : 0 < length (text l) = ground (arith, size_lem l', size) in
          let (d, r) =
            loop_lem kernel t fuel (suc i) (taken_by w l n) l'
              (omega (arith, size, t.least i (length (text l)) some_left))
              (omega (arith, size, most)) in
          (
            d,
            step_more kernel fuel i w _ l l' round m
                ∙ r
                ∙ written_eq (omega (arith, size, most)) (
                    append_assoc w.taken (take n (text l)) (text l')
                    ∙ ap (λ x. w.taken ++ (take n (text l) ++ x)) e
                    ∙ ap (λ x. w.taken ++ x) (take-append-drop n (text l))),
          )
    ]

-- Take a kernel that answers every writev with a count, at most what is offered, and not 0 if
-- something is. For a string of less than 2 ^ 31 bytes in any pieces, `write` with write_all ends
-- without an exception, returns the length of the string, and the kernel has taken the string.
pub write_lem :
    (kernel : ℕ → ℕ → Option ℕ) (d : FileDescriptor) (l : BufferViewList)
    → IsTaking kernel
    → length (text l) < 2 ^ 31
    → (d' : FileDescriptor) × (write kernel d l true
        ≡ ok (record { total = length (text l); descriptor = d'; taken = text l }))
unfolding write
write_lem kernel d l t s =
    let (d', r) =
      loop_lem kernel t (suc (BufferViewList.size l)) 0 (written 0 d []) l
        (omega (arith, size_lem l)) (omega arith) in
    (d', r ∙ written_eq (omega arith) refl)

step_once :
    (kernel : ℕ → ℕ → Option ℕ) (fuel i : ℕ) (w w' : Written) (l l' : BufferViewList)
    → write_round w l (kernel i (BufferViewList.size l)) ≡ ok (w', l')
    → write_loop kernel false (suc fuel) i w l ≡ ok w'
unfolding write_loop
step_once kernel fuel i w w' l l' q = rw q refl

-- Without write_all one call of writev is made, and what the kernel takes is what is returned.
pub write_once :
    (kernel : ℕ → ℕ → Option ℕ) (d : FileDescriptor) (l : BufferViewList) (t : IsTaking kernel)
    → length (text l) < 2 ^ 31
    → let n : ℕ = t.answer 0 (length (text l)) in
      write kernel d l false ≡ ok (written n (register_write d) (take n (text l)))
unfolding write
write_once kernel d l t s =
    let n : ℕ = t.answer 0 (length (text l)) in
    let most : n ≤ length (text l) = t.most 0 (length (text l)) in
    let (l', q, e) = round_lem (written 0 d []) l n most (t.least 0 (length (text l))) s in
    step_once kernel (BufferViewList.size l) 0 (written 0 d []) _ l l' (
      ap (λ m. write_round (written 0 d []) l (kernel 0 m)) (size_lem l)
      ∙ ap (write_round (written 0 d []) l) (t.answers 0 (length (text l)))
      ∙ q)
    ∙ written_eq (omega (arith, most)) refl

round_count :
    (w : Written) (l : BufferViewList) (answer : Option ℕ)
    → IfOk
        (λ (x : Written × BufferViewList).
          x.0.descriptor.write_count ≡ add_u32 w.descriptor.write_count 1)
        (write_round w l answer)
unfolding write_round register_write
round_count w l answer =
    IfOk-bind (λ (n : ℕ). Unit) raised (system_call answer) _ (any_ok (system_call answer))
      (λ n u.
        IfOk-bind (λ (rest : BufferViewList). Unit) raised (rest_of l n) _ (any_ok (rest_of l n))
          (λ rest k. refl))
  where
    raised : Written × BufferViewList → Type 0
    raised x = x.0.descriptor.write_count ≡ add_u32 w.descriptor.write_count 1

-- Every write is counted, and every read.
pub write_count :
    (kernel : ℕ → ℕ → Option ℕ) (d : FileDescriptor) (l : BufferViewList)
    → IfOk (λ w. w.descriptor.write_count ≡ add_u32 d.write_count 1) (write kernel d l false)
unfolding write write_loop
write_count kernel d l =
    IfOk-bind
      (λ (x : Written × BufferViewList). x.0.descriptor.write_count ≡ add_u32 d.write_count 1)
      (λ (w : Written). w.descriptor.write_count ≡ add_u32 d.write_count 1)
      (write_round (written 0 d []) l (kernel 0 (BufferViewList.size l))) _
      (round_count (written 0 d []) l (kernel 0 (BufferViewList.size l))) (λ x p. p)

mark_eof-count :
    (got : List ℕ) (d : FileDescriptor) (limit : ℕ)
    → (mark_eof got d limit).read_count ≡ d.read_count
mark_eof-count got d limit = elim (Bool-cases (ltb 0 limit && (length got == 0))) [
  | inl e ↦ rw e refl
  | inr e ↦ rw e refl
]

read_answer-count :
    (answer : Option (List ℕ)) (d : FileDescriptor) (limit : ℕ)
    → IfOk
        (λ (x : List ℕ × FileDescriptor). x.1.read_count ≡ add_u32 d.read_count 1)
        (read_answer answer d limit)
unfolding read_answer register_read
read_answer-count none d limit = tt
read_answer-count (some got) d limit =
    if-both (IfOk (λ (x : List ℕ × FileDescriptor). x.1.read_count ≡ add_u32 d.read_count 1))
      (ltb (min buffer_size limit) (length got)) (throw runtime_error)
      (ok (got, register_read (mark_eof got d limit))) tt
      (ap (λ n. add_u32 n 1) (mark_eof-count got d limit))

pub read_count :
    (kernel : ℕ → Option (List ℕ)) (d : FileDescriptor) (limit : ℕ)
    → IfOk
        (λ (x : List ℕ × FileDescriptor). x.1.read_count ≡ add_u32 d.read_count 1)
        (read kernel d limit)
unfolding read
read_count kernel d limit = read_answer-count (kernel (min buffer_size limit)) d limit
