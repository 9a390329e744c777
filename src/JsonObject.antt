-- ===== src/JsonObject.antt =====
-- jsonObjects as trees, from src/libopensrf/osrf_json_object.c, and the encoding of their classes, from
-- src/libopensrf/osrf_json_tools.c. The osrfHash of an object stands as its entries in order, the
-- osrfList of an array as its slots. The operations on
-- whole trees are those of trees in which no key has the character `%`.
pub mod Classes
pub mod Storing
mod Tests
use open_srf.Prelude.{
  Bool, true, false, Option, none, some, [], ◌∷◌, if◌then◌else◌, Bytes, same_bytes,
}

-- `struct _jsonObjectStruct`: the class and the rest; a string has its text. A slot of an array may
-- be NULL, a gap.
mutual
  pub data JsonObject : Type 0 where
    object : (classname : Option Bytes) → JsonValue → JsonObject

  pub data JsonValue : Type 0 where
    json_null : JsonValue
    json_string : Bytes → JsonValue
    json_number : Option Bytes → JsonValue
    json_bool : Bool → JsonValue
    json_array : Items → JsonValue
    json_hash : Fields → JsonValue

  pub data Items : Type 0 where
    no_items : Items
    item : JsonObject → Items → Items
    gap : Items → Items

  pub data Fields : Type 0 where
    no_fields : Fields
    field : Bytes → JsonObject → Fields → Fields

-- `JSON_CLASS_KEY` and `JSON_DATA_KEY`: "__c" and "__p"
abbrev pub class_key : Bytes
class_key = b'_' ∷ b'_' ∷ b'c' ∷ []

abbrev pub data_key : Bytes
data_key = b'_' ∷ b'_' ∷ b'p' ∷ []

-- `jsonNewObject`
unfoldable pub new_object : Option Bytes → JsonObject
new_object none = object none json_null
new_object (some s) = object none (json_string s)

-- "0"
abbrev zero_text : Bytes
zero_text = b'0' ∷ []

-- `jsonObjectGetString`
unfoldable pub get_string : JsonObject → Option Bytes
get_string (object c (json_string s)) = some s
get_string (object c (json_number (some s))) = some s
get_string (object c (json_number none)) = some zero_text
get_string (object c _) = none

-- `jsonObjectSetClass`, of an object that is not NULL
unfoldable pub set_class : JsonObject → Option Bytes → JsonObject
set_class (object c v) none = object c v
set_class (object c v) (some classname) = object (some classname) v

-- `osrfHashSet` on the entries of a hash, as `jsonObjectSetKey` calls it, for the key as it expands: the
-- code passes the key as a printf format, which is the key itself if it does not have the character `%`.
unfoldable pub set_key : Fields → Bytes → JsonObject → Fields
set_key no_fields key newo = field key newo no_fields
set_key (field k o rest) key newo =
    let behind = set_key rest key newo in
    if same_bytes k key then field k newo rest else field k o behind

-- the loop of calls of `jsonObjectSetKey` that fills a new hash
unfoldable pub set_keys : Fields → Fields → Fields
unfolding set_key
set_keys no_fields acc = acc
set_keys (field k o rest) acc = set_keys rest (set_key acc k o)

-- `jsonObjectGetKeyConst` on the entries of a hash
unfoldable pub get_key : Fields → Bytes → Option JsonObject
get_key no_fields key = none
get_key (field k o rest) key = if same_bytes k key then some o else get_key rest key

-- `jsonObjectClone`; of NULL, and so of a gap, it is a new JSON_NULL.
unfoldable mutual
  unfolding new_object set_keys

  pub clone : JsonObject → JsonObject
  clone (object c v) = object c (clone_value v)

  pub clone_value : JsonValue → JsonValue
  clone_value json_null = json_null
  clone_value (json_string s) = json_string s
  clone_value (json_number s) = json_number s
  clone_value (json_bool b) = json_bool b
  clone_value (json_array xs) = json_array (clone_items xs)
  clone_value (json_hash fs) = json_hash (set_keys (clone_fields fs) no_fields)

  pub clone_items : Items → Items
  clone_items no_items = no_items
  clone_items (item o xs) = item (clone o) (clone_items xs)
  clone_items (gap xs) = item (new_object none) (clone_items xs)

  pub clone_fields : Fields → Fields
  clone_fields no_fields = no_fields
  clone_fields (field k o rest) = field k (clone o) (clone_fields rest)

-- `_jsonObjectEncodeClass`, `encode_inner` with `ignoreClass` set
unfoldable mutual
  unfolding new_object set_key set_keys clone

  pub encode_class : JsonObject → JsonObject
  encode_class (object none v) = encode_inner none v
  encode_class (object (some classname) v) = object none (
      json_hash (
        set_key (set_key no_fields class_key (new_object (some classname))) data_key
          (encode_inner (some classname) v)))

  pub encode_inner : Option Bytes → JsonValue → JsonObject
  encode_inner c (json_hash fs) = object none (json_hash (set_keys (encode_fields fs) no_fields))
  encode_inner c (json_array xs) = object none (json_array (encode_items xs))
  encode_inner c json_null = clone (object c json_null)
  encode_inner c (json_string s) = clone (object c (json_string s))
  encode_inner c (json_number s) = clone (object c (json_number s))
  encode_inner c (json_bool b) = clone (object c (json_bool b))

  pub encode_items : Items → Items
  encode_items no_items = no_items
  encode_items (item o xs) = item (encode_class o) (encode_items xs)
  encode_items (gap xs) = item (new_object none) (encode_items xs)

  pub encode_fields : Fields → Fields
  encode_fields no_fields = no_fields
  encode_fields (field k o rest) = field k (encode_class o) (encode_fields rest)

-- what `jsonObjectSetKey` and `jsonObjectSetIndex` store for NULL
abbrev pub or_null : Option JsonObject → JsonObject
or_null none = object none json_null
or_null (some o) = o

-- a decoded payload with its class; `jsonObjectDecodeClass` on a payload may give NULL.
unfoldable pub classed : Option JsonObject → Option Bytes → Option JsonObject
unfolding set_class
classed none classname = none
classed (some o) classname = some (set_class o classname)

-- what a hash is decoded to, from the object under `JSON_CLASS_KEY`, what is under `JSON_DATA_KEY`, and
-- the regular hash
unfoldable pub class_or_plain :
    Option JsonObject → Option JsonObject → JsonObject → Option JsonObject
unfolding get_string classed
class_or_plain none payload plain = some plain
class_or_plain (some class_obj) payload plain = classed payload (get_string class_obj)

-- `jsonObjectDecodeClass`, `none` for NULL
unfoldable mutual
  unfolding new_object get_string set_class set_keys get_key clone class_or_plain

  pub decode_class : JsonObject → Option JsonObject
  decode_class (object c (json_hash fs)) =
      class_or_plain (get_key fs class_key) (decode_payload fs)
        (object c (json_hash (set_keys (decode_fields fs) no_fields)))
  decode_class (object c (json_array xs)) = some (object c (json_array (decode_items xs)))
  decode_class (object c json_null) = some (clone (object c json_null))
  decode_class (object c (json_string s)) = some (clone (object c (json_string s)))
  decode_class (object c (json_number s)) = some (clone (object c (json_number s)))
  decode_class (object c (json_bool b)) = some (clone (object c (json_bool b)))

  -- what is decoded under `JSON_DATA_KEY`
  pub decode_payload : Fields → Option JsonObject
  decode_payload no_fields = none
  decode_payload (field k o rest) =
      if same_bytes k data_key then decode_class o else decode_payload rest

  pub decode_items : Items → Items
  decode_items no_items = no_items
  decode_items (item o xs) = item (or_null (decode_class o)) (decode_items xs)
  decode_items (gap xs) = item (new_object none) (decode_items xs)

  pub decode_fields : Fields → Fields
  decode_fields no_fields = no_fields
  decode_fields (field k o rest) = field k (or_null (decode_class o)) (decode_fields rest)
