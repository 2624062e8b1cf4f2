-- ===== src/Buffer/BufferViewList.antt =====
-- BufferViewList of libsponge/util/buffer.hh and buffer.cc: the pieces of a string, seen where they
-- stand. A std::string_view is the bytes that it shows.
use cs144_me.Prelude.{ℕ, ◌+◌, ◌-◌, List, [], ◌∷◌, length, drop, ltb, ◌==◌, if◌then◌else◌}
use cs144_me.Prelude.Result.{Result, ok, throw, out_of_range}
use cs144_me.Buffer.{Buffer, str}

abbrev pub BufferViewList : Type 0
BufferViewList = List (List ℕ)

-- From a string, and from a BufferList.
abbrev pub of_view : List ℕ → BufferViewList
of_view s = s ∷ []

unfoldable pub of_list : List Buffer → BufferViewList
of_list [] = []
of_list (b ∷ l) = str b ∷ of_list l

unfoldable pub size : BufferViewList → ℕ
size [] = 0
size (v ∷ l) = length v + size l

-- The loop; the `remove_prefix` of a view shorter than itself is a cut.
unfoldable pub remove_prefix : BufferViewList → ℕ → Result BufferViewList
remove_prefix [] n = if n == 0 then ok [] else throw out_of_range
remove_prefix (v ∷ l) n =
    let rest = remove_prefix l (n - length v) in
    if n == 0 then ok (v ∷ l) else if ltb n (length v) then ok (drop n v ∷ l) else rest

-- The vector for writev: of each piece its bytes and their number.
unfoldable pub as_iovecs : BufferViewList → List (List ℕ × ℕ)
as_iovecs [] = []
as_iovecs (v ∷ l) = (v, length v) ∷ as_iovecs l
