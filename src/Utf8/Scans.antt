-- ===== src/Utf8/Scans.antt =====
-- `buffer_append_utf8` of src/libopensrf/osrf_utf8.c on the UTF-8 of characters below 0x10000.
use open_srf.Prelude.{
  ℕ, ◌+◌, ◌-◌, ◌/◌, ◌%◌, ◌≤◌, ◌<◌, ◌≡◌, refl, sym, ◌∙◌, ap, true, false, List, [], ◌∷◌, ◌++◌,
  append_assoc, append-nil, arith, Bytes, ltb, inl, inr, Bool-cases, if◌then◌else◌,
}
use open_srf.JsonPush.Literals.{encode_point}
use open_srf.Utf8.{
  mask, has, continue_bit, two_byte_bit, three_byte_bit, append_uxxxx, append_ascii, append_char,
  s_begin, s_2_of_2, s_2_of_3, s_3_of_3, ScanState, Scan, join, begin_byte, continue_byte,
  scan_byte, scan_end, scan, buffer_append_utf8,
}

-- the escape of a character below 0x10000
unfoldable pub escape : ℕ → Bytes
escape code = if ltb code 0x80 then append_ascii code else append_uxxxx code

continues : (c : ℕ) → 0x80 ≤ c → c < 0xc0 → has continue_bit c ≡ true
unfolding has mask
continues c l h = ground arith

two_byte : (c : ℕ) → 0xc2 ≤ c → c < 0xe0 → has two_byte_bit c ≡ true
unfolding has mask
two_byte c l h = ground arith

three_byte :
    (c : ℕ) → 0xe0 ≤ c → c < 0xf0 → (has two_byte_bit c ≡ false) × (has three_byte_bit c ≡ true)
unfolding has mask
three_byte c l h = (ground arith, ground arith)

join_two : (code : ℕ) → code < 0x800 → join (0xc0 + code / 0x40 - 0xc0) (0x80 + code % 0x40) ≡ code
unfolding join
join_two code h = omega arith

join_three :
    (code : ℕ)
    → code < 0x10000
    → join (join (0xe0 + code / 0x1000 - 0xe0) (0x80 + code / 0x40 % 0x40)) (0x80 + code % 0x40)
      ≡ code
unfolding join
join_three code h = omega arith

-- What is left when some characters have been escaped.
pub record Scanned (v : Scan) (out : Bytes) (w : Scan) : Type 0 where
  pub state_is : w.state ≡ s_begin
  pub rc_is : w.rc ≡ v.rc
  pub buf_is : w.buf ≡ v.buf ++ out

begin_ascii :
    (c i : ℕ) (v : Scan)
    → c < 0x80
    → begin_byte c i v ≡ record v { state = s_begin; buf = v.buf ++ append_ascii c }
unfolding begin_byte
begin_ascii c i v h = ground arith

begin_two :
    (c i : ℕ) (v : Scan)
    → 0xc2 ≤ c
    → c < 0xe0
    → begin_byte c i v ≡ record v { state = s_2_of_2; utf8_char = c - 0xc0 }
unfolding begin_byte
begin_two c i v l h = let e = two_byte c l h in ground arith

begin_three :
    (c i : ℕ) (v : Scan)
    → 0xe0 ≤ c
    → c < 0xf0
    → begin_byte c i v ≡ record v { state = s_2_of_3; utf8_char = c - 0xe0 }
unfolding begin_byte
begin_three c i v l h = let (e, e') = three_byte c l h in ground arith

continue_with :
    (next : Scan → Scan) (c i : ℕ) (v : Scan)
    → 0x80 ≤ c
    → c < 0xc0
    → continue_byte next c i v ≡ next (record v { utf8_char = join v.utf8_char c })
unfolding continue_byte
continue_with next c i v l h = let e = continues c l h in rw (continue_byte, e) refl

scan_state :
    (s : ScanState) (c i : ℕ) (t : Bytes) (v : Scan)
    → v.state ≡ s
    → scan (c ∷ t) i v ≡ scan t (i + 1) (scan_byte s c i v)
unfolding scan
scan_state s c i t v e = rw e refl

-- The loop gives back the escape of a character, wherever the text goes on.
abbrev Escaped : ℕ → Bytes → ℕ → Bytes → Scan → Type 0
Escaped code bytes i t v =
    (w : Scan) × (j : ℕ) × (scan (bytes ++ t) i v ≡ scan t j w) × Scanned v (escape code) w

one_byte-Escaped :
    (code i : ℕ) (t : Bytes) (v : Scan)
    → code < 0x80
    → v.state ≡ s_begin
    → Escaped code (code ∷ []) i t v
unfolding scan_byte escape
one_byte-Escaped code i t v h s =
    let w = record v { state = s_begin; buf = v.buf ++ append_ascii code } in
    (
      w,
      i + 1,
      scan_state s_begin code i t v s ∙ ap (scan t (i + 1)) (begin_ascii code i v h),
      record { state_is = refl; rc_is = refl; buf_is = ground arith },
    )

two_bytes-Escaped :
    (code i : ℕ) (t : Bytes) (v : Scan)
    → 0x80 ≤ code
    → code < 0x800
    → v.state ≡ s_begin
    → Escaped code ((0xc0 + code / 0x40) ∷ (0x80 + code % 0x40) ∷ []) i t v
unfolding scan_byte escape
two_bytes-Escaped code i t v l h s =
    let a = 0xc0 + code / 0x40 in
    let b = 0x80 + code % 0x40 in
    let v₁ = record v { state = s_2_of_2; utf8_char = a - 0xc0 } in
    let w = record v {
      state = s_begin;
      utf8_char = join (a - 0xc0) b;
      buf = v.buf ++ append_uxxxx (join (a - 0xc0) b);
    } in
    (
      w,
      i + 1 + 1,
      scan_state s_begin a i (b ∷ t) v s
          ∙ ap (scan (b ∷ t) (i + 1)) (begin_two a i v (omega arith) (omega arith))
          ∙ scan_state s_2_of_2 b (i + 1) t v₁ refl
          ∙ ap (scan t (i + 1 + 1)) (continue_with _ b (i + 1) v₁ (omega arith) (omega arith)),
      record { state_is = refl; rc_is = refl; buf_is = let j = join_two code h in ground arith },
    )

three_bytes-Escaped :
    (code i : ℕ) (t : Bytes) (v : Scan)
    → 0x800 ≤ code
    → code < 0x10000
    → v.state ≡ s_begin
    → Escaped code
        ((0xe0 + code / 0x1000) ∷ (0x80 + code / 0x40 % 0x40) ∷ (0x80 + code % 0x40) ∷ [])
        i
        t
        v
unfolding scan_byte escape append_char
three_bytes-Escaped code i t v l h s =
    let a = 0xe0 + code / 0x1000 in
    let b = 0x80 + code / 0x40 % 0x40 in
    let c = 0x80 + code % 0x40 in
    let v₁ = record v { state = s_2_of_3; utf8_char = a - 0xe0 } in
    let v₂ = record v { state = s_3_of_3; utf8_char = join (a - 0xe0) b } in
    let last = join (join (a - 0xe0) b) c in
    let w = record v { state = s_begin; utf8_char = last; buf = v.buf ++ append_char last } in
    (
      w,
      i + 1 + 1 + 1,
      scan_state s_begin a i (b ∷ c ∷ t) v s
          ∙ ap (scan (b ∷ c ∷ t) (i + 1)) (begin_three a i v (omega arith) (omega arith))
          ∙ scan_state s_2_of_3 b (i + 1) (c ∷ t) v₁ refl
          ∙ ap (scan (c ∷ t) (i + 1 + 1)) (continue_with _ b (i + 1) v₁ (omega arith) (omega arith))
          ∙ scan_state s_3_of_3 c (i + 1 + 1) t v₂ refl
          ∙ ap (scan t (i + 1 + 1 + 1))
              (continue_with _ c (i + 1 + 1) v₂ (omega arith) (omega arith)),
      record { state_is = refl; rc_is = refl; buf_is = let j = join_three code h in ground arith },
    )

encode_one : (code : ℕ) → code < 0x80 → encode_point code ≡ code ∷ []
unfolding encode_point
encode_one code h = ground arith

encode_two :
    (code : ℕ)
    → 0x80 ≤ code
    → code < 0x800
    → encode_point code ≡ (0xc0 + code / 0x40) ∷ (0x80 + code % 0x40) ∷ []
unfolding encode_point
encode_two code l h = ground arith

encode_three :
    (code : ℕ)
    → 0x800 ≤ code
    → encode_point code
      ≡ (0xe0 + code / 0x1000) ∷ (0x80 + code / 0x40 % 0x40) ∷ (0x80 + code % 0x40) ∷ []
unfolding encode_point
encode_three code l = ground arith

-- The UTF-8 of a character is escaped as one.
pub char-Escaped :
    (code i : ℕ) (t : Bytes) (v : Scan)
    → code < 0x10000
    → v.state ≡ s_begin
    → Escaped code (encode_point code) i t v
char-Escaped code i t v h s = elim (Bool-cases (ltb code 0x80)) [
  | inl a ↦ rw (encode_one code (ground arith)) (one_byte-Escaped code i t v (ground arith) s)
  | inr a ↦ elim (Bool-cases (ltb code 0x800)) [
    | inl b ↦
        rw (encode_two code (ground arith) (ground arith))
          (two_bytes-Escaped code i t v (ground arith) (ground arith) s)
    | inr b ↦
        rw (encode_three code (ground arith)) (three_bytes-Escaped code i t v (ground arith) h s)
  ]
]

-- the UTF-8 of a text, and its escape
abbrev pub encode_text : List ℕ → Bytes
encode_text [] = []
encode_text (code ∷ codes) = encode_point code ++ encode_text codes

abbrev pub escape_text : List ℕ → Bytes
escape_text [] = []
escape_text (code ∷ codes) = escape code ++ escape_text codes

-- All are characters of one UTF-16 unit and none is the nul.
pub data IsPlain : List ℕ → Type 0 where
  none_left : IsPlain []
  one_more :
      {code : ℕ} {codes : List ℕ}
      → 0 < code
      → code < 0x10000
      → IsPlain codes
      → IsPlain (code ∷ codes)

text-Scanned :
    (codes : List ℕ) (i : ℕ) (v : Scan)
    → IsPlain codes
    → v.state ≡ s_begin
    → Scanned v (escape_text codes) (scan (encode_text codes) i v)
unfolding scan scan_end
text-Scanned _ i v none_left s =
    rw (scan, s, scan_end)
      (record { state_is = refl; rc_is = refl; buf_is = sym (append-nil v.buf) })
text-Scanned _ i v (one_more {code} {codes} l h rest) s =
    let (w, j, e, first) = char-Escaped code i (encode_text codes) v h s in
    let others = text-Scanned codes j w rest first.state_is in
    rw e (record {
      state_is = others.state_is;
      rc_is = others.rc_is ∙ first.rc_is;
      buf_is =
          others.buf_is ∙ ap (λ b. b ++ escape_text codes) first.buf_is ∙ append_assoc v.buf _ _;
    })

-- A UTF-8 text of such characters is escaped with code 0.
pub buffer_append_utf8-escape_text :
    (codes : List ℕ)
    → IsPlain codes
    → buffer_append_utf8 (encode_text codes) ≡ (0, escape_text codes)
unfolding buffer_append_utf8
buffer_append_utf8-escape_text codes plain =
    let done =
      text-Scanned codes 0 (record { state = s_begin; utf8_char = 0; rc = 0; buf = [] }) plain
        refl in
    ground (arith, done.rc_is, done.buf_is)
