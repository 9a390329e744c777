-- ===== src/GrowingBuffer/Growth.antt =====
-- What the growing buffer of src/libopensrf/utils.c keeps, and when it runs out.
use open_srf.Prelude.{
  ℕ, zero, suc, ◌+◌, ◌-◌, ◌*◌, ◌%◌, ◌<◌, ◌≤◌, ◌≡◌, refl, sym, ap, ◌∙◌, none, some, [], ◌∷◌, ◌++◌,
  arith, ltb, leb, ◌==◌, if◌then◌else◌, length, length-append, append-nil, true, false, get_or,
  take, Bytes,
}
use open_srf.GrowingBuffer.{
  GrowingBuffer, Addition, appended, failed, overrun, int_mod, is_negative, buffer_max_size,
  double_size, buffer_expand, make_room, append_bytes, buffer_add, buffer_add_char, buffer_chomp,
}

-- The length is right, and there is room for the nul.
pub record IsBuffer (gb : GrowingBuffer) : Type 0 where
  pub counted : gb.n_used ≡ length gb.buf
  pub room : gb.n_used < gb.size
  pub small : gb.size ≤ buffer_max_size

pub take-length : (s : Bytes) → take (length s) s ≡ s
take-length [] = refl
take-length (c ∷ s) = ap (λ z. c ∷ z) (take-length s)

-- The loop ends above the length that is asked for.
double_size_lem :
    (fuel total_len size : ℕ)
    → 0 < size
    → total_len < size + fuel
    → total_len < double_size fuel total_len size
unfolding double_size
double_size_lem zero total_len size p h = omega arith
double_size_lem (suc n) total_len size p h = ground (arith, double_size_lem n total_len (size * 2))

-- the size after room has been made
abbrev room_size : GrowingBuffer → ℕ → ℕ
room_size gb total_len =
    let size = double_size (total_len + 1) total_len gb.size in
    if leb gb.size total_len
    then (if ltb buffer_max_size size then buffer_max_size else size)
    else gb.size

make_room-some :
    (gb : GrowingBuffer) (total_len : ℕ)
    → IsBuffer gb
    → total_len < buffer_max_size
    → (make_room gb total_len ≡ some (record gb { size = room_size gb total_len }))
      × (total_len < room_size gb total_len)
      × (room_size gb total_len ≤ buffer_max_size)
unfolding make_room buffer_expand is_negative
make_room-some gb total_len v h =
    let d = double_size_lem (total_len + 1) total_len gb.size (omega arith) (omega arith) in
    (ground arith, ground arith, ground arith)

make_room-none :
    (gb : GrowingBuffer) (total_len : ℕ)
    → IsBuffer gb
    → buffer_max_size ≤ total_len
    → total_len < 2147483648
    → make_room gb total_len ≡ none
unfolding make_room buffer_expand is_negative
make_room-none gb total_len v h i = ground arith

make_room-negative :
    (gb : GrowingBuffer) (total_len : ℕ) → 2147483648 ≤ total_len → make_room gb total_len ≡ some gb
unfolding make_room is_negative
make_room-negative gb total_len h = ground arith

-- what an operation that appends bytes promises
abbrev pub Appends : GrowingBuffer → Bytes → Addition → Type 0
Appends gb data_ r =
    (gb' : GrowingBuffer) × (r ≡ appended gb' (gb.n_used + length data_))
    × IsBuffer gb'
    × (gb'.buf ≡ gb.buf ++ data_)

append-Appends :
    (gb : GrowingBuffer) (data_ : Bytes)
    → IsBuffer gb
    → gb.n_used + length data_ < buffer_max_size
    → let total_len = gb.n_used + length data_ in
      Appends gb data_ (append_bytes (make_room gb total_len) data_ total_len)
unfolding append_bytes
append-Appends gb data_ v h =
    let total_len = gb.n_used + length data_ in
    let (e, above, small) = make_room-some gb total_len v h in
    let kept : take gb.n_used gb.buf ≡ gb.buf = rw v.counted (take-length gb.buf) in
    let fits : ltb (gb.n_used + length data_) (room_size gb total_len) ≡ true = ground arith in
    (
      record {
        buf = take gb.n_used gb.buf ++ data_;
        n_used = total_len;
        size = room_size gb total_len;
      },
      rw (e, fits) refl,
      record {
        counted =
            omega (arith, v.counted, length-append (take gb.n_used gb.buf) data_, ap length kept);
        room = above;
        small = small;
      },
      ap (λ s. s ++ data_) kept,
    )

-- how `buffer_add` computes with lengths that fit
buffer_add-fits :
    (gb : GrowingBuffer) (c : ℕ) (s : Bytes)
    → gb.n_used + length (c ∷ s) < int_mod
    → let total_len = gb.n_used + length (c ∷ s) in
      buffer_add gb (c ∷ s) ≡ append_bytes (make_room gb total_len) (c ∷ s) total_len
unfolding buffer_add
buffer_add-fits gb c s h =
    let n : suc (length s) % int_mod ≡ suc (length s) = omega arith in
    let t : (suc (length s) + gb.n_used) % int_mod ≡ gb.n_used + suc (length s) = omega arith in
    let filled : (suc (length s) == 0) ≡ false = ground arith in rw (n, t, filled) refl

append-overrun :
    (gb : GrowingBuffer) (data_ : Bytes) (total_len : ℕ)
    → gb.size ≤ gb.n_used + length data_
    → append_bytes (some gb) data_ total_len ≡ overrun
unfolding append_bytes
append-overrun gb data_ total_len h = ground arith

-- On a buffer whose length is right, with room for the nul, and for lengths that together are below 2 ^ 32:
-- if the result is shorter than BUFFER_MAX_SIZE, `buffer_add` appends the text, returns the new length and
-- leaves such a buffer; if it is not, but fits into an `int`, it returns -1 and the buffer is freed with what
-- it holds; and if it does not fit into an `int`, the text is written behind the memory.
pub buffer_add_lem :
    (gb : GrowingBuffer) (data_ : Bytes)
    → IsBuffer gb
    → gb.n_used + length data_ < int_mod
    → (gb.n_used + length data_ < buffer_max_size → Appends gb data_ (buffer_add gb data_))
      × (buffer_max_size ≤ gb.n_used + length data_
          → gb.n_used + length data_ < 2147483648
          → buffer_add gb data_ ≡ failed)
      × (2147483648 ≤ gb.n_used + length data_ → buffer_add gb data_ ≡ overrun)
unfolding buffer_add append_bytes
buffer_add_lem gb [] v l = (
  λ h. (gb, ap (appended gb) (omega arith), v, sym (append-nil gb.buf)),
  λ h i. absurd (omega (arith, v.room, v.small)),
  λ h. absurd (omega (arith, v.room, v.small)),
)
buffer_add_lem gb (c ∷ s) v l =
    let total_len = gb.n_used + suc (length s) in
    let e = buffer_add-fits gb c s l in
    (
      λ h. rw e (append-Appends gb (c ∷ s) v h),
      λ h i. e ∙ ap (λ o. append_bytes o (c ∷ s) total_len) (make_room-none gb total_len v h i),
      λ h.
          e
          ∙ ap (λ o. append_bytes o (c ∷ s) total_len) (make_room-negative gb total_len h)
          ∙ append-overrun gb (c ∷ s) total_len (omega (arith, v.room, v.small)),
    )

-- `buffer_add_char` of any byte appends it, or fails and frees the buffer.
pub buffer_add_char_lem :
    (gb : GrowingBuffer) (c : ℕ)
    → IsBuffer gb
    → (gb.n_used + 1 < buffer_max_size → Appends gb (c ∷ []) (buffer_add_char gb c))
      × (buffer_max_size ≤ gb.n_used + 1 → buffer_add_char gb c ≡ failed)
unfolding buffer_add_char append_bytes
buffer_add_char_lem gb c v =
    let t : (gb.n_used + 1) % int_mod ≡ gb.n_used + 1 = omega (arith, v.room, v.small) in
    (
      λ h. rw t (append-Appends gb (c ∷ []) v h),
      λ h. rw (t, make_room-none gb (gb.n_used + 1) v h (omega (arith, v.room, v.small))) refl,
    )

take-concat : (s : Bytes) (c : ℕ) → take (length s) (s ++ c ∷ []) ≡ s
take-concat [] c = refl
take-concat (d ∷ s) c = ap (λ z. d ∷ z) (take-concat s c)

get_or-concat : (s : Bytes) (c : ℕ) → get_or (s ++ c ∷ []) (length s) 0 ≡ c
get_or-concat [] c = refl
get_or-concat (d ∷ s) c = get_or-concat s c

-- `buffer_chomp` takes the last character away again and returns it.
pub buffer_chomp_lem :
    (gb : GrowingBuffer) (s : Bytes) (c : ℕ)
    → IsBuffer gb
    → gb.buf ≡ s ++ c ∷ []
    → let r = buffer_chomp gb in IsBuffer r.0 × (r.0.buf ≡ s) × (r.1 ≡ c)
unfolding buffer_chomp
buffer_chomp_lem gb s c v e =
    let n : gb.n_used ≡ suc (length s) =
      omega (arith, v.counted, ap length e, length-append s (c ∷ [])) in
    let some_left : ltb 0 gb.n_used ≡ true = ground arith in
    let last : gb.n_used - 1 ≡ length s = omega arith in
    let kept : take (gb.n_used - 1) gb.buf ≡ s =
      ap (take (gb.n_used - 1)) e ∙ ap (λ k. take k (s ++ c ∷ [])) last ∙ take-concat s c in
    rw some_left (
      record {
        counted = omega (arith, ap length kept);
        room = omega (arith, v.room);
        small = v.small;
      },
      kept,
      ap (λ k. get_or k (gb.n_used - 1) 0) e
          ∙ ap (λ k. get_or (s ++ c ∷ []) k 0) last
          ∙ get_or-concat s c,
    )
