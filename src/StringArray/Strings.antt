-- ===== src/StringArray/Strings.antt =====
-- A string array of src/libopensrf/string_array.c against the list of its strings.
use open_srf.Prelude.{
  ℕ, zero, suc, ◌↔◌, inl, inr, Bool-cases, same_bytes_lem, ◌+◌, ◌^◌, ◌≤◌, ◌<◌, ◌≡◌, refl, ◌∙◌, ap,
  Bool, true, false, some, List, [], ◌∷◌, ◌++◌, arith, if◌then◌else◌, length, get_elem?, Bytes,
  same_bytes,
}
use open_srf.OsrfList
use open_srf.OsrfList.{OsrfList, get_index, new_list_size}
use open_srf.OsrfList.Valid.{max_position, clear-IsValid}
use open_srf.OsrfList.Access.{clear_lem, free_item-set_item}
use open_srf.OsrfList.Search.{IsPacked, new_list_size-IsPacked, push-IsPacked, callback-IsPacked}
use open_srf.StringArray.{
  StringArray, get_string, new_string_array, add, clear, is_string, contains_from, contains,
}

-- The array holds these strings in order, its two counts agree, and it owns its strings.
pub record IsStrings (arr : StringArray) (xs : List Bytes) : Type 0 where
  pub packed : IsPacked arr.list xs
  pub same_size : arr.size ≡ length xs
  pub owned : arr.list.free_item ≡ true

unfoldable pub elem : Bytes → List Bytes → Bool
elem s [] = false
elem s (x ∷ xs) = if same_bytes x s then true else elem s xs

pub new_string_array-IsStrings : (n : ℕ) → n < 2 ^ 31 → IsStrings (new_string_array n) []
unfolding new_string_array
new_string_array-IsStrings n h =
    let p = new_list_size-IsPacked {A = Bytes} n h in
    record { packed = callback-IsPacked true p; same_size = refl; owned = refl }

-- `osrfStringArrayAdd` on an array that holds `xs`, within the range of an `int`: it then holds `xs`
-- and the new string behind them.
pub add-IsStrings :
    {arr : StringArray} {xs : List Bytes} (s : Bytes)
    → IsStrings arr xs
    → length xs ≤ max_position
    → IsStrings (add arr s) (xs ++ s ∷ [])
unfolding add
add-IsStrings {arr} {xs} s v h =
    let p = push-IsPacked s v.packed (omega (arith, v.packed.counted)) in
    record {
      packed = p;
      same_size = p.counted;
      owned = unfold OsrfList.push in free_item-set_item arr.list (some s) arr.list.size ∙ v.owned;
    }

contains_from-elem :
    (l : OsrfList Bytes) (s : Bytes) (xs : List Bytes) (i : ℕ)
    → ((j : ℕ) → get_index l (j + i) ≡ get_elem? xs j)
    → contains_from l s (length xs) i ≡ elem s xs
unfolding contains_from elem is_string
contains_from-elem l s [] i h = refl
contains_from-elem l s (x ∷ xs) i h = ground (
  arith,
  h 0,
  contains_from-elem l s xs (i + 1) (λ j. ap (get_index l) (omega arith) ∙ h (suc j)),
)

-- On an array that holds `xs`, `osrfStringArrayContains` says whether the string is among `xs`.
pub contains-elem :
    {arr : StringArray} {xs : List Bytes} (s : Bytes)
    → IsStrings arr xs
    → contains arr s ≡ elem s xs
unfolding contains
contains-elem {arr} {xs} s v = rw v.same_size (
    contains_from-elem arr.list s xs 0
      (λ j. ap (get_index arr.list) (omega arith) ∙ v.packed.slots j))

-- `osrfStringArrayClear` of an array that holds strings leaves one that holds none.
pub clear-IsStrings :
    {arr : StringArray} {xs : List Bytes} → IsStrings arr xs → IsStrings (clear arr) []
unfolding clear
clear-IsStrings {arr} v = record {
  packed = record {
    valid = clear-IsValid v.packed.valid;
    counted = (clear_lem 0 v.packed.valid).0;
    slots = λ i. (clear_lem i v.packed.valid).1;
  };
  same_size = refl;
  owned = unfold OsrfList.clear in v.owned;
}

-- what is somewhere in a list is found, and the other way round
found : (s : Bytes) (xs : List Bytes) (i : ℕ) → get_elem? xs i ≡ some s → elem s xs ≡ true
unfolding elem
found s [] i h = absurd (ground arith)
found s (x ∷ xs) zero h = let e = (same_bytes_lem x s).1 in ground arith
found s (x ∷ xs) (suc i) h = let e = found s xs i h in ground arith

index_of : (s : Bytes) (xs : List Bytes) → elem s xs ≡ true → (i : ℕ) × (get_elem? xs i ≡ some s)
unfolding elem
index_of s [] h = absurd (cc)
index_of s (x ∷ xs) h = elim (Bool-cases (same_bytes x s)) [
  | inl e ↦ (0, ap some ((same_bytes_lem x s).0 e))
  | inr e ↦ let (i, at) = index_of s xs (rw e at h) in (suc i, at)
]

-- On an array that holds strings, `osrfStringArrayContains` says yes exactly if
-- `osrfStringArrayGetString` gives the string at some index.
pub contains_iff :
    {arr : StringArray} {xs : List Bytes} (s : Bytes)
    → IsStrings arr xs
    → (contains arr s ≡ true) ↔ ((i : ℕ) × (get_string arr i ≡ some s))
unfolding get_string
contains_iff {arr} {xs} s v = (
  λ h. let (i, at) = index_of s xs (rw⁻¹ (contains-elem s v) h) in (i, v.packed.slots i ∙ at),
  λ p. contains-elem s v ∙ found s xs p.0 (rw⁻¹ (v.packed.slots p.0) p.1),
)
