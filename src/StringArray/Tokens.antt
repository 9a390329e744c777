-- ===== src/StringArray/Tokens.antt =====
-- `osrfStringArrayTokenize` of src/libopensrf/string_array.c against splitting at each delimiter.
use open_srf.Prelude.{
  ℕ, ◌+◌, ◌/◌, ◌≤◌, ◌<◌, ◌≡◌, refl, sym, ◌∙◌, true, false, List, [], ◌∷◌, ◌++◌, arith, ◌==◌,
  if◌then◌else◌, Bool-cases, length, length-append, append-nil, append_assoc, Bytes, inl, inr, ◌≢◌,
}
use open_srf.OsrfList.Valid.{max_position}
use open_srf.StringArray.{StringArray, tokenize_from, tokenize}
use open_srf.StringArray.Strings.{IsStrings, new_string_array-IsStrings, add-IsStrings}

-- `front` put before the first piece
abbrev pub extend_first : Bytes → List Bytes → List Bytes
extend_first front [] = front ∷ []
extend_first front (piece ∷ pieces) = (front ++ piece) ∷ pieces

-- The pieces between delimiters, empty ones included.
unfoldable pub split : ℕ → Bytes → List Bytes
split delim [] = [] ∷ []
split delim (c ∷ s) =
    if c == delim then [] ∷ split delim s else extend_first (c ∷ []) (split delim s)

abbrev pub non_empty : List Bytes → List Bytes
non_empty [] = []
non_empty ([] ∷ ps) = non_empty ps
non_empty ((c ∷ p) ∷ ps) = (c ∷ p) ∷ non_empty ps

extend_first_assoc :
    (a b : Bytes) (ps : List Bytes) → extend_first a (extend_first b ps) ≡ extend_first (a ++ b) ps
extend_first_assoc a b [] = refl
extend_first_assoc a b (p ∷ ps) = rw append_assoc

length-concat : (b : Bytes) (xs : List Bytes) → length (xs ++ b ∷ []) ≡ length xs + 1
length-concat b xs = length-append xs (b ∷ []) ∙ omega arith

mutual
  unfolding tokenize_from split

  in_token :
      (delim c : ℕ) (buf : Bytes) {arr : StringArray} {xs : List Bytes} (src : Bytes)
      → IsStrings arr xs
      → length xs + length src + 1 ≤ max_position
      → IsStrings
          (tokenize_from delim true (c ∷ buf) arr src)
          (xs ++ non_empty (extend_first (c ∷ buf) (split delim src)))
  in_token delim c buf {arr} {xs} [] v h = rw append-nil (add-IsStrings (c ∷ buf) v (omega arith))
  in_token delim c buf {arr} {xs} (d ∷ src) v h = elim (Bool-cases (d == delim)) [
    | inl e ↦
        rw (e, append-nil)
          (rw (sym (append_assoc xs ((c ∷ buf) ∷ []) (non_empty (split delim src)))) (
            between delim (c ∷ buf) src (add-IsStrings (c ∷ buf) v (omega arith))
              (omega (arith, length-concat (c ∷ buf) xs))))
    | inr e ↦
        rw (e, extend_first_assoc (c ∷ buf) (d ∷ []) (split delim src))
          (in_token delim c (buf ++ d ∷ []) src v (omega arith))
  ]

  between :
      (delim : ℕ) (buf : Bytes) {arr : StringArray} {xs : List Bytes} (src : Bytes)
      → IsStrings arr xs
      → length xs + length src + 1 ≤ max_position
      → IsStrings (tokenize_from delim false buf arr src) (xs ++ non_empty (split delim src))
  between delim buf {arr} {xs} [] v h = rw append-nil v
  between delim buf {arr} {xs} (d ∷ src) v h = elim (Bool-cases (d == delim)) [
    | inl e ↦ rw e (between delim buf src v (omega arith))
    | inr e ↦ rw e (in_token delim d [] src v (omega arith))
  ]

-- `osrfStringArrayTokenize` of a text whose length an `int` leaves room for, with a delimiter that
-- is not the nul character: the array holds the non-empty pieces between the delimiters, in order.
pub tokenize-IsStrings :
    (src : Bytes) (delim : ℕ)
    → delim ≢ 0
    → length src < max_position
    → IsStrings (tokenize src delim) (non_empty (split delim src))
unfolding tokenize split
tokenize-IsStrings [] delim ne h = new_string_array-IsStrings 1 (omega arith)
tokenize-IsStrings (c ∷ src) delim ne h =
    between delim [] (c ∷ src) (new_string_array-IsStrings (length (c ∷ src) / 6 + 5) (omega arith))
      (omega arith)
