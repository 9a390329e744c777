-- ===== src/GrowingBuffer.antt =====
-- The growing buffer of src/libopensrf/utils.c: a text with its length and the size of the memory.
-- The expansion gives `none` where the code returns 1, having freed the buffer and what it holds. The
-- `int` lengths of what is added wrap around; a length of the buffer itself is not negative.
pub mod Growth
mod Tests
use open_srf.Prelude.{
  ℕ, zero, suc, ◌+◌, ◌%◌, ◌-◌, ◌*◌, Bool, true, false, Option, none, some, [], ◌∷◌, ◌++◌, ltb, leb,
  ◌==◌, if◌then◌else◌, length, take, get_or, Bytes,
}

abbrev pub buffer_max_size : ℕ
buffer_max_size = 10485760

-- `struct growing_buffer_struct`: the text before the nul, its length and the size of the memory
pub record GrowingBuffer : Type 0 where
  pub buf : Bytes
  pub n_used : ℕ
  pub size : ℕ

unfoldable pub buffer_init : ℕ → Option GrowingBuffer
buffer_init num_initial_bytes =
    if ltb buffer_max_size num_initial_bytes
    then none
    else some (record { buf = []; n_used = 0; size = num_initial_bytes })

-- the loop of `buffer_expand`, with at most so many rounds
unfoldable pub double_size : (fuel : ℕ) → (total_len size : ℕ) → ℕ
double_size zero total_len size = size
double_size (suc n) total_len size =
    let rest = double_size n total_len (size * 2) in if leb size total_len then rest else size

unfoldable pub buffer_expand : GrowingBuffer → (total_len : ℕ) → Option GrowingBuffer
unfolding double_size
buffer_expand gb total_len =
    let size = double_size (total_len + 1) total_len gb.size in
    if leb buffer_max_size total_len
    then none
    else some (record gb { size = if ltb buffer_max_size size then buffer_max_size else size })

-- what an addition comes to: the buffer and what is returned; -1, with the buffer freed; or bytes that
-- are written behind the memory
pub data Addition : Type 0 where
  appended : GrowingBuffer → ℕ → Addition
  failed : Addition
  overrun : Addition

-- the number of values of an `int`; from the half on they stand for negative ones.
abbrev pub int_mod : ℕ
int_mod = 4294967296

unfoldable pub is_negative : ℕ → Bool
is_negative n = leb 2147483648 n

-- the part that the operations share: room for the `int` `total_len` and the nul, if it is not negative
unfoldable pub make_room : GrowingBuffer → (total_len : ℕ) → Option GrowingBuffer
unfolding buffer_expand is_negative
make_room gb total_len =
    if is_negative total_len
    then some gb
    else (if leb gb.size total_len then buffer_expand gb total_len else some gb)

-- the bytes of `data` behind the text
unfoldable pub append_bytes : Option GrowingBuffer → Bytes → (total_len : ℕ) → Addition
append_bytes none data_ total_len = failed
append_bytes (some gb) data_ total_len =
    let text = take gb.n_used gb.buf ++ data_ in
    if ltb (gb.n_used + length data_) gb.size
    then appended (record gb { buf = text; n_used = total_len }) total_len
    else overrun

-- `buffer_add`
unfoldable pub buffer_add : GrowingBuffer → Bytes → Addition
unfolding make_room append_bytes
buffer_add gb data_ =
    let data_len = length data_ % int_mod in
    let total_len = (data_len + gb.n_used) % int_mod in
    if data_len == 0
    then appended gb gb.n_used
    else append_bytes (make_room gb total_len) data_ total_len

-- `buffer_add_n` of the first `n` bytes, with at least `n` bytes at `data_`
unfoldable pub buffer_add_n : GrowingBuffer → Bytes → (n : ℕ) → Addition
unfolding make_room append_bytes
buffer_add_n gb data_ n =
    let total_len = (n + gb.n_used) % int_mod in
    if n == 0 then appended gb 0 else append_bytes (make_room gb total_len) (take n data_) total_len

-- `buffer_add_char`
unfoldable pub buffer_add_char : GrowingBuffer → ℕ → Addition
unfolding make_room append_bytes
buffer_add_char gb c =
    let total_len = (gb.n_used + 1) % int_mod in
    append_bytes (make_room gb total_len) (c ∷ []) total_len

unfoldable pub buffer_reset : GrowingBuffer → GrowingBuffer
buffer_reset gb = record gb { buf = []; n_used = 0 }

-- `buffer_chomp`: the buffer and the character
unfoldable pub buffer_chomp : GrowingBuffer → GrowingBuffer × ℕ
buffer_chomp gb =
    let last = gb.n_used - 1 in
    let chomped : GrowingBuffer × ℕ =
      (record gb { buf = take last gb.buf; n_used = last }, get_or gb.buf last 0) in
    if ltb 0 gb.n_used then chomped else (gb, 0)
