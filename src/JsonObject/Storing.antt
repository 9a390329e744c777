-- ===== src/JsonObject/Storing.antt =====
-- Filling a new hash by `jsonObjectSetKey` of src/libopensrf/osrf_json_object.c.
use open_srf.Prelude.{
  ◌≡◌, refl, sym, ap, ◌∙◌, Bool, true, false, not, ◌&&◌, arith, Bytes, same_bytes, same_bytes_lem,
}
use open_srf.JsonObject.{JsonObject, Fields, no_fields, field, set_key, set_keys}

-- no field has this key
unfoldable pub absent : Bytes → Fields → Bool
absent key no_fields = true
absent key (field k o rest) = not (same_bytes k key) && absent key rest

-- every key stands once
unfoldable pub IsDistinct : Fields → Type 0
IsDistinct no_fields = Unit
IsDistinct (field k o rest) = (absent k rest ≡ true) × IsDistinct rest

append_fields : Fields → Fields → Fields
append_fields no_fields fs = fs
append_fields (field k o rest) fs = field k o (append_fields rest fs)

-- no key of the first fields is among the second
IsOutside : Fields → Fields → Type 0
IsOutside no_fields acc = Unit
IsOutside (field k o rest) acc = (absent k acc ≡ true) × IsOutside rest acc

set_key-absent :
    (acc : Fields) (key : Bytes) (o : JsonObject)
    → absent key acc ≡ true
    → set_key acc key o ≡ append_fields acc (field key o no_fields)
unfolding set_key absent append_fields
set_key-absent no_fields key o h = refl
set_key-absent (field k p rest) key o h = ground (arith, set_key-absent rest key o)

same_bytes_comm : (a b : Bytes) → same_bytes a b ≡ false → same_bytes b a ≡ false
same_bytes_comm a b h = ground (arith, same_bytes_lem a b, same_bytes_lem b a)

absent-append :
    (key : Bytes) (fs : Fields) (k : Bytes) (o : JsonObject)
    → absent key fs ≡ true
    → same_bytes k key ≡ false
    → absent key (append_fields fs (field k o no_fields)) ≡ true
unfolding absent append_fields
absent-append key no_fields k o h e = ground arith
absent-append key (field j p rest) k o h e = ground (arith, absent-append key rest k o)

IsOutside-append :
    (fs acc : Fields) (k : Bytes) (o : JsonObject)
    → IsOutside fs acc
    → absent k fs ≡ true
    → IsOutside fs (append_fields acc (field k o no_fields))
unfolding IsOutside absent
IsOutside-append no_fields acc k o h a = tt
IsOutside-append (field j p rest) acc k o h a = (
  absent-append j acc k o h.0 (same_bytes_comm j k (ground arith)),
  IsOutside-append rest acc k o h.1 (ground arith),
)

append-assoc_field :
    (acc : Fields) (k : Bytes) (o : JsonObject) (rest : Fields)
    → append_fields (append_fields acc (field k o no_fields)) rest
      ≡ append_fields acc (field k o rest)
unfolding append_fields
append-assoc_field no_fields k o rest = refl
append-assoc_field (field j p acc) k o rest = ap (field j p) (append-assoc_field acc k o rest)

append_fields-nil : (acc : Fields) → append_fields acc no_fields ≡ acc
unfolding append_fields
append_fields-nil no_fields = refl
append_fields-nil (field k o rest) = ap (field k o) (append_fields-nil rest)

set_keys-append :
    (fs acc : Fields) → IsDistinct fs → IsOutside fs acc → set_keys fs acc ≡ append_fields acc fs
unfolding set_keys IsDistinct IsOutside
set_keys-append no_fields acc d h = sym (append_fields-nil acc)
set_keys-append (field k o rest) acc d h =
    ap (set_keys rest) (set_key-absent acc k o h.0)
    ∙ set_keys-append rest (append_fields acc (field k o no_fields)) d.1
        (IsOutside-append rest acc k o h.1 d.0)
    ∙ append-assoc_field acc k o rest

-- Fields with distinct keys are stored as they come.
pub set_keys_lem : (fs : Fields) → IsDistinct fs → set_keys fs no_fields ≡ fs
unfolding append_fields IsOutside absent
set_keys_lem fs d = set_keys-append fs no_fields d (outside fs)
  where
    outside : (fs : Fields) → IsOutside fs no_fields
    outside no_fields = tt
    outside (field k o rest) = (refl, outside rest)
