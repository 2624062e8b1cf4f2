-- ===== src/Buffer/BufferList.antt =====
-- BufferList of libsponge/util/buffer.hh and buffer.cc: a string in several pieces.
use cs144_me.Prelude.{ℕ, ◌+◌, ◌-◌, List, [], ◌∷◌, ◌++◌, length, ltb, ◌==◌, if◌then◌else◌}
use cs144_me.Prelude.Result.{Result, ok, throw, out_of_range, runtime_error, ◌>>=◌}
use cs144_me.Buffer
use cs144_me.Buffer.{Buffer, empty_buffer, str, of_string}

abbrev pub BufferList : Type 0
BufferList = List Buffer

-- BufferList(Buffer)
abbrev pub of_buffer : Buffer → BufferList
of_buffer b = b ∷ []

unfoldable pub append : BufferList → BufferList → BufferList
append l [] = l
append l (b ∷ other) = append (l ++ (b ∷ [])) other

-- BufferList(std::string &&)
unfoldable pub of_text : List ℕ → BufferList
unfolding append
of_text s = append [] (of_buffer (of_string s))

-- The conversion to a Buffer.
unfoldable pub to_buffer : BufferList → Result Buffer
to_buffer [] = ok empty_buffer
to_buffer (b ∷ []) = ok b
to_buffer (b ∷ b' ∷ l) = throw runtime_error

unfoldable pub concatenate : BufferList → List ℕ
concatenate [] = []
concatenate (b ∷ l) = str b ++ concatenate l

unfoldable pub size : BufferList → ℕ
size [] = 0
size (b ∷ l) = length (str b) + size l

-- What is left once n bytes of the first piece are gone.
abbrev cut_first : Buffer → BufferList → ℕ → Result BufferList
cut_first b l n = do b' ← Buffer.remove_prefix b n; ok (b' ∷ l)

-- The loop: each round but the last drops a piece.
unfoldable pub remove_prefix : BufferList → ℕ → Result BufferList
remove_prefix [] n = if n == 0 then ok [] else throw out_of_range
remove_prefix (b ∷ l) n =
    let rest = remove_prefix l (n - length (str b)) in
    if n == 0 then ok (b ∷ l) else if ltb n (length (str b)) then cut_first b l n else rest
