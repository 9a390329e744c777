-- ===== src/Utf8/Reading.antt =====
-- A parser of src/libopensrf/jsonpush.c inside a string, one escape at a time.
use open_srf.Prelude.{
  ℕ, suc, ◌+◌, ◌*◌, ◌<◌, ◌≡◌, refl, ◌∙◌, ap, true, false, some, [], ◌∷◌, ◌++◌, append_assoc, arith,
  Bytes, ◌==◌, inl, inr, Bool-cases, get_or,
}
use open_srf.Ctype.{is_xdigit, is_cntrl, is_print}
use open_srf.JsonPush.State.{State, str, slash, utf8, Handlers, Machine}
use open_srf.JsonPush.Literals.{
  encode_point, hex_value, escaped, do_str, do_slash, do_utf8, add_hex, end_utf8,
}
use open_srf.JsonPush.Drive.{onward, is_error, next_byte, advance, dispatch, feed, run}
use open_srf.Utf8.{hex_char}

hex-hex_char : (d : ℕ) → d < 16 → (is_xdigit (hex_char d) ≡ true) × (hex_value (hex_char d) ≡ d)
unfolding is_xdigit hex_char hex_value
hex-hex_char d h = (ground arith, ground arith)

module _ {S : Type 0} (H : Handlers S) (m₀ : Machine S) where
  -- A parser inside a string that differs from the first one only in its place in the text.
  pub record Inside (s : State) (buf : Bytes) (idx code : ℕ) (m : Machine S) : Type 0 where
    pub state_is : m.parser.state ≡ s
    pub buf_is : m.parser.buf ≡ buf
    pub idx_is : m.parser.word_idx ≡ idx
    pub code_is : m.parser.point_code ≡ code
    pub again_is : m.parser.again ≡ 0
    pub stack_is : m.parser.state_stack ≡ m₀.parser.state_stack
    pub free_is : m.parser.free_states ≡ m₀.parser.free_states
    pub keylist_is : m.parser.keylist ≡ m₀.parser.keylist
    pub blob_is : m.blob ≡ m₀.blob

  pub advance-Inside :
      (next : ℕ) (s : State) (buf : Bytes) (idx code : ℕ) (m : Machine S)
      → Inside s buf idx code m
      → Inside s buf idx code (advance next m)
  unfolding advance
  advance-Inside next s buf idx code m i = elim (Bool-cases (next == b'\n')) [
    | inl e ↦ rw e (record {
      state_is = i.state_is;
      buf_is = i.buf_is;
      idx_is = i.idx_is;
      code_is = i.code_is;
      again_is = i.again_is;
      stack_is = i.stack_is;
      free_is = i.free_is;
      keylist_is = i.keylist_is;
      blob_is = i.blob_is;
    })
    | inr e ↦ rw e (record {
      state_is = i.state_is;
      buf_is = i.buf_is;
      idx_is = i.idx_is;
      code_is = i.code_is;
      again_is = i.again_is;
      stack_is = i.stack_is;
      free_is = i.free_is;
      keylist_is = i.keylist_is;
      blob_is = i.blob_is;
    })
  ]

  abbrev pub placed : State → Bytes → ℕ → ℕ → Machine S → Machine S
  placed s buf idx code m = record m {
    parser = record m.parser { state = s; buf = buf; word_idx = idx; point_code = code };
  }

  -- in the string itself, and behind a backslash
  abbrev pub InStr : Bytes → Machine S → Type 0
  InStr buf m = (idx : ℕ) × (code : ℕ) × Inside str buf idx code m

  abbrev pub InSlash : Bytes → Machine S → Type 0
  InSlash buf m = (idx : ℕ) × (code : ℕ) × Inside slash buf idx code m

  -- The loop takes the bytes, and leaves a parser of which the predicate holds.
  abbrev pub Takes : Machine S → Bytes → (Machine S → Type 0) → Type 0
  Takes m bytes P =
      (t : Bytes) (after : ℕ)
      → (m' : Machine S) × (run H (bytes ++ t) after m ≡ run H t after m') × P m'

  pub feed-onward :
      (n c next : ℕ) (m m' : Machine S)
      → dispatch H m.parser.state m c ≡ (0, m')
      → m'.parser.again ≡ 0
      → feed H (suc n) c next m ≡ some (onward (advance next m'))
  unfolding feed
  feed-onward n c next m m' d a = rw (feed, d, a) refl

  pub one-Takes :
      (c : ℕ) (m m' : Machine S) (s : State) (P : Machine S → Type 0)
      → m.parser.state ≡ s
      → is_error s ≡ false
      → dispatch H s m c ≡ (0, m')
      → m'.parser.again ≡ 0
      → ((next : ℕ) → P (advance next m'))
      → Takes m (c ∷ []) P
  unfolding run
  one-Takes c m m' s P e ok d a p t after =
      let fine : is_error m.parser.state ≡ false = ap is_error e ∙ ok in
      let fed = feed-onward 2 c (next_byte t after) m m' (ap (λ x. dispatch H x m c) e ∙ d) a in
      (advance (next_byte t after) m', rw (run, fine, fed) refl, p (next_byte t after))

  pub then-Takes :
      (bs cs : Bytes) (m : Machine S) (P Q : Machine S → Type 0)
      → Takes m bs P
      → ((m' : Machine S) → P m' → Takes m' cs Q)
      → Takes m (bs ++ cs) Q
  then-Takes bs cs m P Q f g t after =
      let (m₁, e₁, p) = f (cs ++ t) after in
      let (m₂, e₂, q) = g m₁ p t after in
      (m₂, ap (λ x. run H x after m) (append_assoc bs cs t) ∙ e₁ ∙ e₂, q)

  -- The parser with its fields as they are known.
  pub known :
      (s : State) (buf : Bytes) (idx code : ℕ) (m : Machine S)
      → Inside s buf idx code m
      → m ≡ placed s buf idx code m
  known s buf idx code m i =
      let p = m.parser in
      ap (λ x. placed x p.buf p.word_idx p.point_code m) i.state_is
      ∙ ap (λ x. placed s x p.word_idx p.point_code m) i.buf_is
      ∙ ap (λ x. placed s buf x p.point_code m) i.idx_is
      ∙ ap (λ x. placed s buf idx x m) i.code_is

  -- One character changes the state, the text, the index and the code, and nothing else.
  pub change-Takes :
      (c : ℕ) (m : Machine S) (s s' : State) (buf buf' : Bytes) (idx idx' code code' : ℕ)
      → Inside s buf idx code m
      → is_error s ≡ false
      → dispatch H s (placed s buf idx code m) c ≡ (0, placed s' buf' idx' code' m)
      → Takes m (c ∷ []) (Inside s' buf' idx' code')
  change-Takes c m s s' buf buf' idx idx' code code' i ok d =
      one-Takes c m (placed s' buf' idx' code' m) s _ i.state_is ok
        (ap (λ x. dispatch H s x c) (known s buf idx code m i) ∙ d) i.again_is
        (λ next. advance-Inside next s' buf' idx' code' (placed s' buf' idx' code' m) (record {
          state_is = refl;
          buf_is = refl;
          idx_is = refl;
          code_is = refl;
          again_is = i.again_is;
          stack_is = i.stack_is;
          free_is = i.free_is;
          keylist_is = i.keylist_is;
          blob_is = i.blob_is;
        }))

  pub plain-Takes :
      (c : ℕ) (buf : Bytes) (m : Machine S)
      → is_print c ≡ true
      → (c == b'"') ≡ false
      → (c == b'\\') ≡ false
      → InStr buf m
      → Takes m (c ∷ []) (InStr (buf ++ c ∷ []))
  unfolding dispatch do_str is_print is_cntrl is_error
  plain-Takes c buf m p q b (idx, code, i) t after =
      let (m', e, j) =
        change-Takes c m str str buf (buf ++ c ∷ []) idx idx code code i refl (ground arith) t
          after in
      (m', e, (idx, code, j))

  pub slash-Takes : (buf : Bytes) (m : Machine S) → InStr buf m → Takes m (b'\\' ∷ []) (InSlash buf)
  unfolding dispatch do_str is_error
  slash-Takes buf m (idx, code, i) t after =
      let (m', e, j) =
        change-Takes b'\\' m str slash buf buf idx idx code code i refl refl t after in
      (m', e, (idx, code, j))

  pub escaped-Takes :
      (c d : ℕ) (buf : Bytes) (m : Machine S)
      → escaped c ≡ some d
      → InSlash buf m
      → Takes m (c ∷ []) (InStr (buf ++ d ∷ []))
  unfolding dispatch do_slash is_error
  escaped-Takes c d buf m h (idx, code, i) t after =
      let (m', e, j) =
        change-Takes c m slash str buf (buf ++ d ∷ []) idx idx code code i refl
          (rw (do_slash, h) refl) t after in
      (m', e, (idx, code, j))

  pub u-Takes :
      (buf : Bytes) (m : Machine S) → InSlash buf m → Takes m (b'u' ∷ []) (Inside utf8 buf 0 0)
  unfolding dispatch do_slash escaped is_error
  u-Takes buf m (idx, code, i) = change-Takes b'u' m slash utf8 buf buf idx 0 code 0 i refl refl

  -- A hex digit goes to `add_hex`.
  do_utf8-hex_char :
      (d idx : ℕ) (m : Machine S)
      → d < 16
      → m.parser.word_idx ≡ idx
      → do_utf8 H m (hex_char d) ≡ add_hex H m d idx
  unfolding do_utf8
  do_utf8-hex_char d idx m h e =
      let (x, v) = hex-hex_char d h in rw (do_utf8, x, v) (ap (add_hex H m d) e)

  -- the first three digits
  pub digit-Takes :
      (d idx code scale : ℕ) (buf : Bytes) (m : Machine S)
      → d < 16
      → ((m' : Machine S)
          → add_hex H m' d idx ≡ (
            0,
            placed m'.parser.state m'.parser.buf (suc idx) (m'.parser.point_code + d * scale) m',
          ))
      → Inside utf8 buf idx code m
      → Takes m (hex_char d ∷ []) (Inside utf8 buf (suc idx) (code + d * scale))
  unfolding dispatch is_error
  digit-Takes d idx code scale buf m h add i =
      change-Takes (hex_char d) m utf8 utf8 buf buf idx (suc idx) code (code + d * scale) i refl (
        do_utf8-hex_char d idx (placed utf8 buf idx code m) h refl
        ∙ add (placed utf8 buf idx code m))

  -- the last one
  pub last-Takes :
      (d code : ℕ) (buf : Bytes) (m : Machine S)
      → d < 16
      → (get_or (encode_point (code + d)) 0 0 == 0) ≡ false
      → Inside utf8 buf 3 code m
      → Takes m (hex_char d ∷ []) (InStr (buf ++ encode_point (code + d)))
  unfolding dispatch is_error add_hex end_utf8
  last-Takes d code buf m h z i t after =
      let (m', e, j) =
        change-Takes (hex_char d) m utf8 str buf (buf ++ encode_point (code + d)) 3 3 code code i
          refl (do_utf8-hex_char d 3 (placed utf8 buf 3 code m) h refl ∙ rw (end_utf8, z) refl) t
          after in
      (m', e, (3, code, j))
