-- ===== src/Buffer.antt =====
-- libsponge/util/buffer.hh and buffer.cc: strings that give up bytes at the front. A shared string
-- is a value here: no code writes to one, and only the last owner's reset frees it.
pub mod BufferList
pub mod BufferViewList
pub mod Laws
use cs144_me.Prelude.{
  ℕ, ◌+◌, Bool, true, false, Option, none, some, List, [], length, drop, ltb, ◌==◌, if◌then◌else◌,
}
use cs144_me.Prelude.Word.{add_size}
use cs144_me.Prelude.Result.{Result, ok, throw, out_of_range}

pub record Buffer : Type 0 where
  pub storage : Option (List ℕ)
  pub starting_offset : ℕ

abbrev pub empty_buffer : Buffer
empty_buffer = record { storage = none; starting_offset = 0 }

-- Buffer(std::string &&)
unfoldable pub of_string : List ℕ → Buffer
of_string s = record { storage = some s; starting_offset = 0 }

abbrev pub view : Option (List ℕ) → ℕ → List ℕ
view none n = []
view (some s) n = drop n s

unfoldable pub str : Buffer → List ℕ
str b = view b.storage b.starting_offset

unfoldable pub size : Buffer → ℕ
unfolding str
size b = length (str b)

-- `_storage and _starting_offset == _storage->size()`
abbrev pub used_up : Option (List ℕ) → ℕ → Bool
used_up none n = false
used_up (some s) n = n == length s

unfoldable pub remove_prefix : Buffer → ℕ → Result Buffer
unfolding str
remove_prefix b n =
    let offset : ℕ = add_size b.starting_offset n in
    if ltb (length (str b)) n
    then throw out_of_range
    else ok (record {
      storage = if used_up b.storage offset then none else b.storage;
      starting_offset = offset;
    })
