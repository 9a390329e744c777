-- ===== src/Utf8/RoundTrip.antt =====
-- `buffer_append_utf8` of src/libopensrf/osrf_utf8.c and the string states of
-- src/libopensrf/jsonpush.c.
use open_srf.Prelude.{
  ℕ, ◌+◌, ◌*◌, ◌/◌, ◌%◌, ◌<◌, ◌≡◌, refl, sym, subst, ◌∙◌, ap, true, false, some, List, [], ◌∷◌,
  ◌++◌, append_assoc, append-nil, arith, Bytes, ltb, ◌==◌, inl, inr, Bool-cases, get_or,
}
use open_srf.Ctype.{is_print}
use open_srf.JsonPush.State.{str, Handlers, Machine}
use open_srf.JsonPush.Literals.{encode_point, escaped, add_hex}
use open_srf.JsonPush.Drive.{is_error, run, seal, seal_option, push}
use open_srf.Utf8.{mask, has, print_bit, hex_char, append_uxxxx, append_ascii, buffer_append_utf8}
use open_srf.Utf8.Scans.{
  escape, IsPlain, none_left, one_more, encode_text, escape_text, buffer_append_utf8-escape_text,
}
use open_srf.Utf8.Reading.{
  InStr, Inside, Takes, then-Takes, slash-Takes, u-Takes, digit-Takes, last-Takes, plain-Takes,
  escaped-Takes,
}

-- The ways in which a byte below 0x80 is escaped.
data Ascii (code : ℕ) : Type 0 where
  plain :
      append_ascii code ≡ code ∷ []
      → is_print code ≡ true
      → (code == b'"') ≡ false
      → (code == b'\\') ≡ false
      → Ascii code
  slashed : (c : ℕ) → append_ascii code ≡ b'\\' ∷ c ∷ [] → escaped c ≡ some code → Ascii code
  in_hex : append_ascii code ≡ append_uxxxx code → Ascii code

printed-Ascii : (code : ℕ) → code < 0x80 → has print_bit code ≡ true → Ascii code
unfolding append_ascii escaped
printed-Ascii code h p =
    let q : is_print code ≡ true = unfold is_print has mask in ground arith in
    elim (Bool-cases (code == b'"')) [
      | inl e ↦ slashed b'"' (ground arith) (ground arith)
      | inr e ↦ elim (Bool-cases (code == b'\\')) [
        | inl e' ↦ slashed b'\\' (ground arith) (ground arith)
        | inr e' ↦ plain (ground arith) q e e'
      ]
    ]

control-Ascii : (code : ℕ) → has print_bit code ≡ false → Ascii code
unfolding append_ascii escaped
control-Ascii code p = elim (Bool-cases (code == b'\n')) [
  | inl e ↦ slashed b'n' (ground arith) (ground arith)
  | inr e₁ ↦ elim (Bool-cases (code == b'\t')) [
    | inl e ↦ slashed b't' (ground arith) (ground arith)
    | inr e₂ ↦ elim (Bool-cases (code == b'\r')) [
      | inl e ↦ slashed b'r' (ground arith) (ground arith)
      | inr e₃ ↦ elim (Bool-cases (code == 12)) [
        | inl e ↦ slashed b'f' (ground arith) (ground arith)
        | inr e₄ ↦ elim (Bool-cases (code == 8)) [
          | inl e ↦ slashed b'b' (ground arith) (ground arith)
          | inr e₅ ↦ in_hex (ground arith)
        ]
      ]
    ]
  ]
]

Ascii-cases : (code : ℕ) → code < 0x80 → Ascii code
Ascii-cases code h = elim (Bool-cases (has print_bit code)) [
  | inl p ↦ printed-Ascii code h p
  | inr p ↦ control-Ascii code p
]

point-no_nul : (code : ℕ) → 0 < code → (get_or (encode_point code) 0 0 == 0) ≡ false
unfolding encode_point
point-no_nul code h = ground arith

encode_ascii : (code : ℕ) → code < 0x80 → encode_point code ≡ code ∷ []
unfolding encode_point
encode_ascii code h = ground arith

digits-sum :
    (code : ℕ)
    → code < 0x10000
    → 0
        + code / 0x1000 % 16 * 0x1000
        + code / 0x100 % 16 * 0x100
        + code / 0x10 % 16 * 0x10
        + code % 16
      ≡ code
digits-sum code h = omega arith

module _ {S : Type 0} (H : Handlers S) (m₀ : Machine S) where
  -- `\\uxxxx` is read as the UTF-8 of its character.
  uxxxx-Takes :
      (code : ℕ) (buf : Bytes) (m : Machine S)
      → 0 < code
      → code < 0x10000
      → InStr H m₀ buf m
      → Takes H m₀ m (append_uxxxx code) (InStr H m₀ (buf ++ encode_point code))
  unfolding append_uxxxx
  uxxxx-Takes code buf m g h i =
      let d₁ = code / 0x1000 % 16 in
      let d₂ = code / 0x100 % 16 in
      let d₃ = code / 0x10 % 16 in
      let d₄ = code % 16 in
      let c₁ = 0 + d₁ * 0x1000 in
      let c₂ = c₁ + d₂ * 0x100 in
      let c₃ = c₂ + d₃ * 0x10 in
      let sum : c₃ + d₄ ≡ code = digits-sum code h in
      let x₁ = hex_char d₁ in
      let x₂ = hex_char d₂ in
      let x₃ = hex_char d₃ in
      let x₄ = hex_char d₄ in
      then-Takes H m₀ (b'\\' ∷ []) (b'u' ∷ x₁ ∷ x₂ ∷ x₃ ∷ x₄ ∷ []) m _ _ (slash-Takes H m₀ buf m i)
        (λ m₁ i₁.
          then-Takes H m₀ (b'u' ∷ []) (x₁ ∷ x₂ ∷ x₃ ∷ x₄ ∷ []) m₁ _ _ (u-Takes H m₀ buf m₁ i₁)
            (λ m₂ i₂.
              then-Takes H m₀ (x₁ ∷ []) (x₂ ∷ x₃ ∷ x₄ ∷ []) m₂ _ _
                (digit-Takes H m₀ d₁ 0 0 0x1000 buf m₂ (omega arith) (λ x. unfold add_hex in refl)
                  i₂)
                (λ m₃ i₃.
                  then-Takes H m₀ (x₂ ∷ []) (x₃ ∷ x₄ ∷ []) m₃ _ _
                    (digit-Takes H m₀ d₂ 1 c₁ 0x100 buf m₃ (omega arith)
                      (λ x. unfold add_hex in refl) i₃)
                    (λ m₄ i₄.
                      then-Takes H m₀ (x₃ ∷ []) (x₄ ∷ []) m₄ _ _
                        (digit-Takes H m₀ d₃ 2 c₂ 0x10 buf m₄ (omega arith)
                          (λ x. unfold add_hex in refl) i₄)
                        (λ m₅ i₅.
                          subst (λ x. Takes H m₀ m₅ (x₄ ∷ []) (InStr H m₀ (buf ++ encode_point x)))
                            sum
                            (last-Takes H m₀ d₄ c₃ buf m₅ (omega arith)
                              (ap (λ x. get_or (encode_point x) 0 0 == 0) sum ∙ point-no_nul code g)
                              i₅))))))

  Ascii-Takes :
      (code : ℕ) (buf : Bytes) (m : Machine S)
      → 0 < code
      → code < 0x80
      → Ascii code
      → InStr H m₀ buf m
      → Takes H m₀ m (append_ascii code) (InStr H m₀ (buf ++ encode_point code))
  Ascii-Takes code buf m g h (plain e p q b) i =
      rw (e, encode_ascii code h) (plain-Takes H m₀ code buf m p q b i)
  Ascii-Takes code buf m g h (slashed c e d) i =
      rw (e, encode_ascii code h)
        (then-Takes H m₀ (b'\\' ∷ []) (c ∷ []) m _ _ (slash-Takes H m₀ buf m i)
          (λ m' j. escaped-Takes H m₀ c code buf m' d j))
  Ascii-Takes code buf m g h (in_hex e) i = rw e (uxxxx-Takes code buf m g (omega arith) i)

  escape-Takes :
      (code : ℕ) (buf : Bytes) (m : Machine S)
      → 0 < code
      → code < 0x10000
      → InStr H m₀ buf m
      → Takes H m₀ m (escape code) (InStr H m₀ (buf ++ encode_point code))
  unfolding escape
  escape-Takes code buf m g h i = elim (Bool-cases (ltb code 0x80)) [
    | inl e ↦ rw e (Ascii-Takes code buf m g (ground arith) (Ascii-cases code (ground arith)) i)
    | inr e ↦ rw e (uxxxx-Takes code buf m g h i)
  ]

  text-Takes :
      (codes : List ℕ) (buf : Bytes) (m : Machine S)
      → IsPlain codes
      → InStr H m₀ buf m
      → Takes H m₀ m (escape_text codes) (InStr H m₀ (buf ++ encode_text codes))
  text-Takes _ buf m none_left i = λ t after. (m, refl, rw (append-nil buf) i)
  text-Takes _ buf m (one_more {code} {codes} g h others) i =
      rw⁻¹ (append_assoc buf (encode_point code) (encode_text codes)) (
        then-Takes H m₀ (escape code) (escape_text codes) m _ _ (escape-Takes code buf m g h i)
          (λ m' j. text-Takes codes (buf ++ encode_point code) m' others j))

-- Take the UTF-8 of characters from 1 to 0xffff. `buffer_append_utf8` escapes it with code 0, and if
-- what it writes is pushed to a parser that is inside a string, with no character to be read again,
-- then `jsonPush` returns 0 without a callback, the parser is inside that string still at the same
-- level, and the text that it is building has grown by exactly the UTF-8 that was escaped.
pub push-buffer_append_utf8 :
    {S : Type 0} (H : Handlers S) (codes : List ℕ) (after : ℕ) (m : Machine S)
    → IsPlain codes
    → m.parser.state ≡ str
    → m.parser.again ≡ 0
    → ((buffer_append_utf8 (encode_text codes)).0 ≡ 0)
      × (m' : Machine S) × (push H (buffer_append_utf8 (encode_text codes)).1 after m
          ≡ some (0, m'))
      × (m'.parser.state ≡ str)
      × (m'.parser.buf ≡ m.parser.buf ++ encode_text codes)
      × (m'.parser.state_stack ≡ m.parser.state_stack)
      × (m'.blob ≡ m.blob)
unfolding push run seal_option seal is_error
push-buffer_append_utf8 H codes after m p s a =
    let escaped_is = buffer_append_utf8-escape_text codes p in
    let start : Inside H m str m.parser.buf m.parser.word_idx m.parser.point_code m = record {
      state_is = s;
      buf_is = refl;
      idx_is = refl;
      code_is = refl;
      again_is = a;
      stack_is = refl;
      free_is = refl;
      keylist_is = refl;
      blob_is = refl;
    } in
    let (m', e, (idx, code, i)) =
      text-Takes H m codes m.parser.buf m p (m.parser.word_idx, m.parser.point_code, start) []
        after in
    let ran : run H (escape_text codes) after m ≡ some (0, m') =
      ap (λ x. run H x after m) (sym (append-nil (escape_text codes))) ∙ e in
    let fine : is_error m.parser.state ≡ false = ap is_error s in
    (
      ap (λ r. r.0) escaped_is,
      m',
      rw (escaped_is, push, fine, ran) refl,
      i.state_is,
      i.buf_is,
      i.stack_is,
      i.blob_is,
    )
