-- ===== src/StringArray/Removal.antt =====
-- `osrfStringArrayRemove` of src/libopensrf/string_array.c against the list of the strings.
use mathlib.Core.Option
use open_srf.Prelude.{
  ℕ, zero, suc, ◌+◌, ◌-◌, ◌≤◌, ◌<◌, ◌≡◌, refl, ◌∙◌, ap, true, false, ◌&&◌, Option, none, some, List,
  [], ◌∷◌, arith, leb, ltb, if◌then◌else◌, Bool-cases, length, get_elem?, get_elem?-none, Bytes,
  same_bytes, inl, inr,
}
use open_srf.OsrfList
use open_srf.OsrfList.{OsrfList, get_index, shrink}
use open_srf.OsrfList.Valid.{max_position, IsValid, set_item-IsValid, remove-IsValid}
use open_srf.OsrfList.Access.{remove_lem, size-remove, get_index-set_item, size-set_item}
use open_srf.OsrfList.Search.{callback-IsPacked, callback-IsValid, get_index-callback}
use open_srf.StringArray.{StringArray, is_string, locate, shift, remove_at, remove_located, remove}
use open_srf.StringArray.Strings.{IsStrings}

-- The list without its first element that equals `s`.
unfoldable pub erase : Bytes → List Bytes → List Bytes
erase s [] = []
erase s (x ∷ xs) = if same_bytes x s then xs else x ∷ erase s xs

position : Bytes → List Bytes → Option ℕ
position s [] = none
position s (x ∷ xs) = if same_bytes x s then some 0 else Option.map suc (position s xs)

abbrev erase_at : ℕ → List Bytes → List Bytes
erase_at k [] = []
erase_at zero (x ∷ xs) = xs
erase_at (suc k) (x ∷ xs) = x ∷ erase_at k xs

-- `ys` is `xs` without what stands at the position
abbrev AtPosition : List Bytes → List Bytes → Option ℕ → Type 0
AtPosition xs ys none = ys ≡ xs
AtPosition xs ys (some k) = (ys ≡ erase_at k xs) × (k < length xs)

AtPosition-suc :
    (x : Bytes) (xs ys : List Bytes) (o : Option ℕ)
    → AtPosition xs ys o
    → AtPosition (x ∷ xs) (x ∷ ys) (Option.map suc o)
AtPosition-suc x xs ys none a = ap (◌∷◌ x) a
AtPosition-suc x xs ys (some k) a = (ap (◌∷◌ x) a.0, omega (arith, a.1))

position-erase : (s : Bytes) (xs : List Bytes) → AtPosition xs (erase s xs) (position s xs)
unfolding position erase
position-erase s [] = refl
position-erase s (x ∷ xs) = elim (Bool-cases (same_bytes x s)) [
  | inl e ↦ rw (e, erase) (refl, omega arith)
  | inr e ↦ rw (e, erase) (AtPosition-suc x xs (erase s xs) (position s xs) (position-erase s xs))
]

get_elem?-erase_at :
    (k : ℕ) (xs : List Bytes) (j : ℕ)
    → get_elem? (erase_at k xs) j ≡ (if ltb j k then get_elem? xs j else get_elem? xs (j + 1))
get_elem?-erase_at k [] j = ground arith
get_elem?-erase_at zero (x ∷ xs) j = ground (arith, ap (get_elem? (x ∷ xs)) e)
  where
    e : suc j ≡ j + 1
    e = omega arith
get_elem?-erase_at (suc k) (x ∷ xs) zero = ground arith
get_elem?-erase_at (suc k) (x ∷ xs) (suc j) =
    get_elem?-erase_at k xs j ∙ ground (arith, ap (get_elem? (x ∷ xs)) e)
  where
    e : suc (j + 1) ≡ suc j + 1
    e = omega arith

length-erase_at : (k : ℕ) (xs : List Bytes) → k < length xs → length (erase_at k xs) + 1 ≡ length xs
length-erase_at k [] h = absurd (omega arith)
length-erase_at zero (x ∷ xs) h = omega arith
length-erase_at (suc k) (x ∷ xs) h = omega (arith, length-erase_at k xs)

locate-position :
    (l : OsrfList Bytes) (s : Bytes) (xs : List Bytes) (i : ℕ)
    → ((j : ℕ) → get_index l (j + i) ≡ get_elem? xs j)
    → locate l s (length xs) i ≡ Option.map (λ k. k + i) (position s xs)
unfolding locate position is_string
locate-position l s [] i h = refl
locate-position l s (x ∷ xs) i h = ground (
  arith,
  h 0,
  locate-position l s xs (i + 1) (λ j. ap (get_index l) (omega arith) ∙ h (suc j)),
  shifted (position s xs),
)
  where
    shifted :
        (o : Option ℕ)
        → Option.map (λ k. k + (i + 1)) o ≡ Option.map (λ k. k + i) (Option.map suc o)
    shifted none = refl
    shifted (some k) = ap some (omega arith)

-- The array after `n` rounds of the second loop from position `i`.
record Shifted (l : OsrfList Bytes) (n i : ℕ) (l' : OsrfList Bytes) : Type 0 where
  valid : IsValid l'
  same_size : l'.size ≡ l.size
  slots :
      (j : ℕ)
      → get_index l' j ≡ (if leb i j && ltb j (i + n) then get_index l (j + 1) else get_index l j)

shift-Shifted :
    (l : OsrfList Bytes) (n i : ℕ)
    → IsValid l
    → l.size ≤ max_position
    → i + n ≤ l.size
    → Shifted l n i (shift l n i)
unfolding shift
shift-Shifted l zero i v m h = record { valid = v; same_size = refl; slots = λ j. ground arith }
shift-Shifted l (suc n) i v m h =
    let x = get_index l (i + 1) in
    let l₁ = (OsrfList.set_item l x i).list in
    let same : l₁.size ≡ l.size = size-set_item x i v (omega arith) ∙ ground arith in
    let rest =
      shift-Shifted l₁ n (i + 1) (set_item-IsValid x i v (omega arith)) (omega arith)
        (omega arith) in
    record {
      valid = rest.valid;
      same_size = rest.same_size ∙ same;
      slots = λ j. ground (
        arith,
        rest.slots j,
        get_index-set_item x i (j + 1) v (omega arith),
        get_index-set_item x i j v (omega arith),
      );
    }

remove_at-IsStrings :
    {arr : StringArray} {xs : List Bytes} (k : ℕ)
    → IsStrings arr xs
    → length xs ≤ max_position
    → k < length xs
    → IsStrings (remove_at arr k) (erase_at k xs)
unfolding remove_at
remove_at-IsStrings {arr} {xs} k v m h =
    let p = v.packed in
    let n = arr.size - 1 - k in
    let a = (OsrfList.remove arr.list k).list in
    let a-valid = remove-IsValid k p.valid in
    let b = record a { free_item = false } in
    let a-size = size-remove arr.list k in
    let a-slots = (remove_lem k p.valid).0 in
    let c =
      shift-Shifted b n k (callback-IsValid false a-valid) (ground (arith, p.counted))
        (ground (arith, p.counted, v.same_size)) in
    let d-slots = (remove_lem (k + n) c.valid).0 in
    let d-size = size-remove (shift b n k) (k + n) in
    let len = length-erase_at k xs h in
    record {
      packed = callback-IsPacked true (record {
        valid = remove-IsValid (k + n) c.valid;
        counted = ground (arith, d-size, c.same_size, p.counted, v.same_size);
        slots = λ j.
            d-slots j
            ∙ ground (
              arith,
              c.slots j,
              get_index-callback a false j,
              get_index-callback a false (j + 1),
              a-slots j,
              a-slots (j + 1),
              p.slots j,
              p.slots (j + 1),
              get_elem?-erase_at k xs j,
              get_elem?-none xs (j + 1),
              get_elem?-none xs j,
              p.counted,
              v.same_size,
            );
      });
      same_size = omega (arith, v.same_size);
      owned = refl;
    }

-- `osrfStringArrayRemove` on an array that holds `xs`, within the range of an `int`: the array then
-- holds `xs` without the first string that equals the given one, and is unchanged if there is none.
pub remove-IsStrings :
    {arr : StringArray} {xs : List Bytes} (s : Bytes)
    → IsStrings arr xs
    → length xs ≤ max_position
    → IsStrings (remove arr s) (erase s xs)
unfolding remove
remove-IsStrings {arr} {xs} s v m =
    let found : locate arr.list s arr.size 0 ≡ Option.map (λ k. k + 0) (position s xs) =
      ap (λ n. locate arr.list s n 0) v.same_size
      ∙ locate-position arr.list s xs 0
          (λ j. ap (get_index arr.list) (omega arith) ∙ v.packed.slots j) in
    rw found (at (position s xs) (position-erase s xs))
  where
    at :
        (o : Option ℕ)
        → AtPosition xs (erase s xs) o
        → IsStrings (remove_located arr (Option.map (λ k. k + 0) o)) (erase s xs)
    at none a = unfold remove_located in rw a v
    at (some k) a =
        let e : k + 0 ≡ k = omega arith in
        unfold remove_located in rw (e, a.0) (remove_at-IsStrings k v m a.1)
