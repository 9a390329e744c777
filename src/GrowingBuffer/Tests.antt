-- ===== src/GrowingBuffer/Tests.antt =====
-- Runs of the growing buffer of src/libopensrf/utils.c.
use open_srf.Prelude.{◌≡◌, refl, [], ◌∷◌, arith, Bytes}
use open_srf.GrowingBuffer.{GrowingBuffer, appended, buffer_add, buffer_chomp}
use open_srf.GrowingBuffer.Growth.{IsBuffer, Appends, buffer_add_lem}

abbrev word : Bytes
word = b'w' ∷ b'o' ∷ b'r' ∷ b'd' ∷ []

abbrev small : GrowingBuffer
small = record { buf = []; n_used = 0; size = 3 }

small-IsBuffer : IsBuffer small
small-IsBuffer = record { counted = refl; room = omega arith; small = omega arith }

-- The memory is doubled until there is room for the nul.
add_test : buffer_add small word ≡ appended (record { buf = word; n_used = 4; size = 6 }) 4
unfolding buffer_add
add_test = refl

chomp_test :
    buffer_chomp (record { buf = word; n_used = 4; size = 6 })
    ≡ (record { buf = b'w' ∷ b'o' ∷ b'r' ∷ []; n_used = 3; size = 6 }, b'd')
unfolding buffer_chomp
chomp_test = refl

buffer_add_lem_example : Appends small word (buffer_add small word)
buffer_add_lem_example = (buffer_add_lem small word small-IsBuffer (omega arith)).0 (omega arith)
