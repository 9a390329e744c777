-- ===== src/JsonObject/Tests.antt =====
-- Runs of the definitions of src/libopensrf/osrf_json_object.c and src/libopensrf/osrf_json_tools.c.
use open_srf.Prelude.{◌≡◌, refl, true, none, some, [], ◌∷◌, Bytes, same_bytes}
use open_srf.JsonObject.{
  JsonObject, object, json_string, json_bool, json_array, json_hash, json_null, no_items, item, gap,
  no_fields, field, class_key, clone, encode_class, decode_class,
}
use open_srf.JsonObject.Classes.{IsTree, is_verbatim, decode_class-encode_class}

-- "a" and "b"
abbrev a : Bytes
a = b'a' ∷ []

abbrev b : Bytes
b = b'b' ∷ []

-- {"a": ["b" of the class "b", true], "b": null} of the class "a"
abbrev tree : JsonObject
tree = object (some a) (
    json_hash (
      field a
        (object none (
          json_array (
            item (object (some b) (json_string b)) (item (object none (json_bool true)) no_items))))
        (field b (object none json_null) no_fields)))

-- A gap of an array is cloned to a null.
gap_test :
    clone (object none (json_array (gap no_items)))
    ≡ object none (json_array (item (object none json_null) no_items))
unfolding clone
gap_test = refl

-- A class mark without a payload is decoded to NULL.
mark_test : decode_class (object none (json_hash (field class_key tree no_fields))) ≡ none
unfolding decode_class same_bytes
mark_test = refl

decode_class-encode_class_example : decode_class (encode_class tree) ≡ some tree
unfolding IsTree same_bytes is_verbatim
decode_class-encode_class_example =
    decode_class-encode_class tree (refl, refl, (tt, (tt, tt)), (refl, refl, tt, tt))
