-- ===== src/StringArray/Tests.antt =====
-- Runs of the string arrays of src/libopensrf/string_array.c, and their theorems at concrete arrays.
use open_srf.Prelude.{[], ◌∷◌, arith, Bytes, same_bytes}
use open_srf.StringArray.{StringArray, new_string_array, add, remove, tokenize}
use open_srf.StringArray.Strings.{IsStrings, new_string_array-IsStrings, add-IsStrings}
use open_srf.StringArray.Removal.{erase, remove-IsStrings}
use open_srf.StringArray.Tokens.{split, tokenize-IsStrings}

abbrev one : Bytes
one = b'a' ∷ b'b' ∷ []

abbrev two : Bytes
two = b'c' ∷ []

abbrev both : StringArray
both = add (add (new_string_array 8) one) two

both-IsStrings : IsStrings both (one ∷ two ∷ [])
both-IsStrings =
    add-IsStrings two (add-IsStrings one (new_string_array-IsStrings 8 (omega arith)) (omega arith))
      (omega arith)

-- ",ab,,c"
abbrev text : Bytes
text = b',' ∷ b'a' ∷ b'b' ∷ b',' ∷ b',' ∷ b'c' ∷ []

remove-IsStrings_example : IsStrings (remove both one) (two ∷ [])
unfolding erase same_bytes
remove-IsStrings_example = remove-IsStrings one both-IsStrings (omega arith)

tokenize-IsStrings_example : IsStrings (tokenize text b',') (one ∷ two ∷ [])
unfolding split
tokenize-IsStrings_example = tokenize-IsStrings text b',' (λ e. absurd (ground arith)) (omega arith)
