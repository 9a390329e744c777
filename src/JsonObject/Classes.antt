-- ===== src/JsonObject/Classes.antt =====
-- Cloning, and encoding and decoding of classes, in src/libopensrf/osrf_json_object.c and
-- src/libopensrf/osrf_json_tools.c.
use open_srf.Prelude.{
  ◌≡◌, ◌==◌, [], ◌∷◌, refl, sym, ap, ◌∙◌, not, ◌&&◌, Bool, true, Option, none, some, arith, Bytes,
  same_bytes,
}
use open_srf.JsonObject.{
  JsonObject, JsonValue, Items, Fields, object, json_null, json_string, json_number, json_bool,
  json_array, json_hash, no_items, item, gap, no_fields, field, class_key, clone, encode_class,
  decode_class, get_key, classed, or_null,
}
use open_srf.JsonObject
use open_srf.JsonObject.Storing.{absent, IsDistinct, set_keys_lem}

-- A tree whose arrays have no gaps and in whose hashes every key stands once and is allowed.
unfoldable mutual
  unfolding absent

  pub IsTree : (Bytes → Bool) → JsonObject → Type 0
  IsTree ok (object c v) = IsTreeValue ok v

  pub IsTreeValue : (Bytes → Bool) → JsonValue → Type 0
  IsTreeValue ok json_null = Unit
  IsTreeValue ok (json_string s) = Unit
  IsTreeValue ok (json_number s) = Unit
  IsTreeValue ok (json_bool b) = Unit
  IsTreeValue ok (json_array xs) = AreTrees ok xs
  IsTreeValue ok (json_hash fs) = AreFields ok fs

  pub AreTrees : (Bytes → Bool) → Items → Type 0
  AreTrees ok no_items = Unit
  AreTrees ok (item o xs) = IsTree ok o × AreTrees ok xs
  AreTrees ok (gap xs) = ⊥

  pub AreFields : (Bytes → Bool) → Fields → Type 0
  AreFields ok no_fields = Unit
  AreFields ok (field k o rest) =
      (ok k ≡ true) × (absent k rest ≡ true) × IsTree ok o × AreFields ok rest

AreFields-IsDistinct : (ok : Bytes → Bool) (fs : Fields) → AreFields ok fs → IsDistinct fs
unfolding IsTree IsDistinct
AreFields-IsDistinct ok no_fields t = tt
AreFields-IsDistinct ok (field k o rest) t = (t.1, AreFields-IsDistinct ok rest t.3)

mutual
  unfolding IsTree clone

  clone_eq : (ok : Bytes → Bool) (o : JsonObject) → IsTree ok o → clone o ≡ o
  clone_eq ok (object c v) t = ap (object c) (clone_value_eq ok v t)

  clone_value_eq :
      (ok : Bytes → Bool) (v : JsonValue) → IsTreeValue ok v → JsonObject.clone_value v ≡ v
  clone_value_eq ok json_null t = refl
  clone_value_eq ok (json_string s) t = refl
  clone_value_eq ok (json_number s) t = refl
  clone_value_eq ok (json_bool b) t = refl
  clone_value_eq ok (json_array xs) t = ap json_array (clone_items_eq ok xs t)
  clone_value_eq ok (json_hash fs) t =
      ap (λ z. json_hash (JsonObject.set_keys z no_fields)) (clone_fields_eq ok fs t)
      ∙ ap json_hash (set_keys_lem fs (AreFields-IsDistinct ok fs t))

  clone_items_eq :
      (ok : Bytes → Bool) (xs : Items) → AreTrees ok xs → JsonObject.clone_items xs ≡ xs
  clone_items_eq ok no_items t = refl
  clone_items_eq ok (item o xs) t =
      ap (λ z. item z (JsonObject.clone_items xs)) (clone_eq ok o t.0)
      ∙ ap (item o) (clone_items_eq ok xs t.1)
  clone_items_eq ok (gap xs) t = absurd t

  clone_fields_eq :
      (ok : Bytes → Bool) (fs : Fields) → AreFields ok fs → JsonObject.clone_fields fs ≡ fs
  clone_fields_eq ok no_fields t = refl
  clone_fields_eq ok (field k o rest) t =
      ap (λ z. field k z (JsonObject.clone_fields rest)) (clone_eq ok o t.2)
      ∙ ap (field k o) (clone_fields_eq ok rest t.3)

-- A key that osrfHashSet, which takes a printf format, uses as it is.
unfoldable pub is_verbatim : Bytes → Bool
is_verbatim [] = true
is_verbatim (c ∷ k) = not (c == b'%') && is_verbatim k

-- `jsonObjectClone` of a tree without empty slots, repeated keys and keys with the character `%` gives an
-- equal tree.
pub clone_lem : (o : JsonObject) → IsTree is_verbatim o → clone o ≡ o
clone_lem o t = clone_eq is_verbatim o t

-- Such a key that is not the one under which a class is encoded.
abbrev pub is_plain_key : Bytes → Bool
is_plain_key k = not (same_bytes k class_key) && is_verbatim k

absent-encode :
    (key : Bytes) (fs : Fields) → absent key (JsonObject.encode_fields fs) ≡ absent key fs
unfolding absent encode_class
absent-encode key no_fields = refl
absent-encode key (field k o rest) = ap (λ b. not (same_bytes k key) && b) (absent-encode key rest)

encode_fields-IsDistinct : (fs : Fields) → IsDistinct fs → IsDistinct (JsonObject.encode_fields fs)
unfolding IsDistinct encode_class
encode_fields-IsDistinct no_fields d = tt
encode_fields-IsDistinct (field k o rest) d =
    (absent-encode k rest ∙ d.0, encode_fields-IsDistinct rest d.1)

get_key-encode :
    (fs : Fields)
    → AreFields is_plain_key fs
    → get_key (JsonObject.encode_fields fs) class_key ≡ none
unfolding get_key encode_class IsTree
get_key-encode no_fields t = refl
get_key-encode (field k o rest) t = ground (arith, get_key-encode rest t.3)

classed-none : (o : Option JsonObject) → classed o none ≡ o
unfolding classed
classed-none none = refl
classed-none (some (object c v)) = refl

plain_hash :
    (fs : Fields)
    → get_key (JsonObject.encode_fields fs) class_key ≡ none
    → decode_class (object none (json_hash (JsonObject.encode_fields fs)))
      ≡ some (
          object none (
            json_hash (
              JsonObject.set_keys
                (JsonObject.decode_fields (JsonObject.encode_fields fs))
                no_fields)))
unfolding decode_class
plain_hash fs e =
    ap
      (λ z. JsonObject.class_or_plain z (JsonObject.decode_payload encoded) (
        object none (json_hash (JsonObject.set_keys (JsonObject.decode_fields encoded) no_fields))))
      e
  where
    encoded : Fields
    encoded = JsonObject.encode_fields fs

given : (c : Option Bytes) (v : JsonValue) → classed (some (object none v)) c ≡ some (object c v)
unfolding classed
given none v = refl
given (some c) v = refl

mutual
  unfolding IsTree encode_class decode_class classed same_bytes

  decode-encode : (o : JsonObject) → IsTree is_plain_key o → decode_class (encode_class o) ≡ some o
  decode-encode (object none v) t = sym (classed-none _) ∙ decode-encode_inner none v t
  decode-encode (object (some classname) v) t = decode-encode_inner (some classname) v t

  decode-encode_inner :
      (c : Option Bytes) (v : JsonValue)
      → IsTreeValue is_plain_key v
      → classed (decode_class (JsonObject.encode_inner c v)) c ≡ some (object c v)
  decode-encode_inner none json_null t = refl
  decode-encode_inner (some c) json_null t = refl
  decode-encode_inner none (json_string s) t = refl
  decode-encode_inner (some c) (json_string s) t = refl
  decode-encode_inner none (json_number s) t = refl
  decode-encode_inner (some c) (json_number s) t = refl
  decode-encode_inner none (json_bool b) t = refl
  decode-encode_inner (some c) (json_bool b) t = refl
  decode-encode_inner c (json_array xs) t =
      ap (λ z. classed (some (object none (json_array z))) c) (decode-encode_items xs t)
      ∙ given c (json_array xs)
  decode-encode_inner c (json_hash fs) t =
      let d = AreFields-IsDistinct is_plain_key fs t in
      ap (λ z. classed (decode_class (object none (json_hash z))) c)
        (set_keys_lem (JsonObject.encode_fields fs) (encode_fields-IsDistinct fs d))
      ∙ ap (λ z. classed z c) (plain_hash fs (get_key-encode fs t))
      ∙ ap (λ z. classed (some (object none (json_hash (JsonObject.set_keys z no_fields)))) c)
          (decode-encode_fields fs t)
      ∙ ap (λ z. classed (some (object none (json_hash z))) c) (set_keys_lem fs d)
      ∙ given c (json_hash fs)

  decode-encode_items :
      (xs : Items)
      → AreTrees is_plain_key xs
      → JsonObject.decode_items (JsonObject.encode_items xs) ≡ xs
  decode-encode_items no_items t = refl
  decode-encode_items (item o xs) t =
      ap (λ z. item (or_null z) (JsonObject.decode_items (JsonObject.encode_items xs)))
        (decode-encode o t.0)
      ∙ ap (item o) (decode-encode_items xs t.1)
  decode-encode_items (gap xs) t = absurd t

  decode-encode_fields :
      (fs : Fields)
      → AreFields is_plain_key fs
      → JsonObject.decode_fields (JsonObject.encode_fields fs) ≡ fs
  decode-encode_fields no_fields t = refl
  decode-encode_fields (field k o rest) t =
      ap (λ z. field k (or_null z) (JsonObject.decode_fields (JsonObject.encode_fields rest)))
        (decode-encode o t.2)
      ∙ ap (field k o) (decode-encode_fields rest t.3)

-- `jsonObjectDecodeClass` of what `jsonObjectEncodeClass` makes of a tree is the tree again, with its
-- classes, if no array of it has an empty slot, no hash has a key twice, and no key is the one that marks
-- a class or has the character `%`.
pub decode_class-encode_class :
    (o : JsonObject) → IsTree is_plain_key o → decode_class (encode_class o) ≡ some o
decode_class-encode_class o t = decode-encode o t
