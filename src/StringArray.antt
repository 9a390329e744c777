-- ===== src/StringArray.antt =====
-- src/libopensrf/string_array.c: an osrfList of strings with `free` for its callback.
-- Messages to the log are left out.
pub mod Strings
pub mod Removal
pub mod Tokens
mod Tests
use open_srf.Prelude.{
  ℕ, zero, suc, ◌+◌, ◌-◌, ◌/◌, Bool, true, false, Option, none, some, List, [], ◌∷◌, ◌++◌, ◌==◌,
  if◌then◌else◌, length, Bytes, same_bytes,
}
use open_srf.OsrfList
use open_srf.OsrfList.{OsrfList, get_index}

-- `osrfStringArray`
pub record StringArray : Type 0 where
  pub list : OsrfList Bytes
  pub size : ℕ

unfoldable pub new_string_array : ℕ → StringArray
unfolding OsrfList.new_list_size
new_string_array size = record {
  list = record (OsrfList.new_list_size size) { free_item = true };
  size = 0;
}

unfoldable pub add : StringArray → Bytes → StringArray
add arr string =
    let l = (OsrfList.push arr.list (some string)).list in record { list = l; size = l.size }

unfoldable pub get_string : StringArray → ℕ → Option Bytes
get_string arr index = get_index arr.list index

unfoldable pub clear : StringArray → StringArray
clear arr = record { list = (OsrfList.clear arr.list).0; size = 0 }

unfoldable pub swap : StringArray → StringArray → StringArray × StringArray
swap one two = (two, one)

-- `str && !strcmp( str, string )`
unfoldable pub is_string : Bytes → Option Bytes → Bool
is_string string none = false
is_string string (some str) = same_bytes str string

-- the loop of `osrfStringArrayContains` with its rounds left
unfoldable pub contains_from : OsrfList Bytes → Bytes → ℕ → ℕ → Bool
unfolding is_string
contains_from l string zero i = false
contains_from l string (suc n) i =
    let rest = contains_from l string n (i + 1) in
    if is_string string (get_index l i) then true else rest

unfoldable pub contains : StringArray → Bytes → Bool
unfolding contains_from
contains arr string = contains_from arr.list string arr.size 0

-- the first loop of `osrfStringArrayRemove`: where the string is, if anywhere
unfoldable pub locate : OsrfList Bytes → Bytes → ℕ → ℕ → Option ℕ
unfolding is_string
locate l string zero i = none
locate l string (suc n) i =
    let rest = locate l string n (i + 1) in
    if is_string string (get_index l i) then some i else rest

-- its second loop: each of `n` positions from `i` on takes the pointer of the next one
unfoldable pub shift : OsrfList Bytes → ℕ → ℕ → OsrfList Bytes
shift l zero i = l
shift l (suc n) i = shift (OsrfList.set_item l (get_index l (i + 1)) i).list n (i + 1)

-- what follows, with the string at position `i`
unfoldable pub remove_at : StringArray → ℕ → StringArray
unfolding shift
remove_at arr i =
    let freed = (OsrfList.remove arr.list i).list in
    let n = arr.size - 1 - i in
    let shifted = shift (record freed { free_item = false }) n i in
    let shortened = (OsrfList.remove shifted (i + n)).list in
    record { list = record shortened { free_item = true }; size = arr.size - 1 }

-- `if( ! removed ) return;`
unfoldable pub remove_located : StringArray → Option ℕ → StringArray
unfolding remove_at
remove_located arr none = arr
remove_located arr (some i) = remove_at arr i

unfoldable pub remove : StringArray → Bytes → StringArray
unfolding locate remove_located
remove arr tstr = remove_located arr (locate arr.list tstr arr.size 0)

-- the loop of `osrfStringArrayTokenize`; `buf` is the token that is being built
unfoldable pub tokenize_from : ℕ → Bool → Bytes → StringArray → Bytes → StringArray
tokenize_from delim true buf arr [] = add arr buf
tokenize_from delim false buf arr [] = arr
tokenize_from delim true buf arr (c ∷ src) =
    let ended = tokenize_from delim false buf (add arr buf) src in
    let longer = tokenize_from delim true (buf ++ c ∷ []) arr src in
    if c == delim then ended else longer
tokenize_from delim false buf arr (c ∷ src) =
    let between = tokenize_from delim false buf arr src in
    let begun = tokenize_from delim true (c ∷ []) arr src in if c == delim then between else begun

-- `osrfStringArrayTokenize`
unfoldable pub tokenize : Bytes → ℕ → StringArray
unfolding tokenize_from new_string_array
tokenize [] delim = new_string_array 1
tokenize (c ∷ src) delim =
    tokenize_from delim false [] (new_string_array (length (c ∷ src) / 6 + 5)) (c ∷ src)
