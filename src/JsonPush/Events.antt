-- ===== src/JsonPush/Events.antt =====
-- What the callbacks of src/libopensrf/jsonpush.c are to see: the events of JSON values, nested as
-- the JSON grammar nests them. Nothing here mentions the parser but its callbacks.
use open_srf.Prelude.{ℕ, ◌≡◌, Bool, Option, none, some, List, [], ◌∷◌, if◌then◌else◌, Bytes}
use open_srf.JsonPush.State.{Complaint, Handlers}

-- A callback, with its arguments. The Boolean of `ended` says whether the parser was resumed.
pub data Event : Type 0 where
  string number : Bytes → Event
  boolean : Bool → Event
  null_value : Event
  opened_array closed_array opened_obj closed_obj : Event
  key : Bytes → Event
  ended : Bool → Event

-- Where the events stand: before or after the one value of the text; in an array; in an object
-- where a key or the end may come; in an object where the value of a key must come.
pub data Frame : Type 0 where
  fresh done : Frame
  array object member : Frame

abbrev pub Place : Type 0
Place = List Frame

-- a value stands here, whole or opened
abbrev pub fill : Place → Option Place
fill (fresh ∷ k) = some (done ∷ k)
fill (array ∷ k) = some (array ∷ k)
fill (member ∷ k) = some (object ∷ k)
fill _ = none

abbrev pub open_with : Frame → Option Place → Option Place
open_with f none = none
open_with f (some k) = some (f ∷ k)

-- the place after an event, `none` where it may not come
abbrev pub next_place : Event → Place → Option Place
next_place (string t) k = fill k
next_place (number t) k = fill k
next_place (boolean b) k = fill k
next_place null_value k = fill k
next_place opened_array k = open_with array (fill k)
next_place opened_obj k = open_with object (fill k)
next_place closed_array (array ∷ k) = some k
next_place closed_obj (object ∷ k) = some k
next_place (key t) (object ∷ k) = some (member ∷ k)
next_place (ended resumed) (done ∷ []) = some ((if resumed then fresh else done) ∷ [])
next_place _ _ = none

abbrev pub then_place : Event → Option Place → Option Place
then_place e none = none
then_place e (some k) = next_place e k

-- the place after a list of events, the last one first
unfoldable pub follow : List Event → Option Place
follow [] = some (fresh ∷ [])
follow (e ∷ log) = then_place e (follow log)

-- The callbacks write down each event, and whatever else they do they return what they like.
pub record IsRecorder {S : Type 0} (H : Handlers S) (log : S → List Event) : Type 0 where
  pub at_string : (s : S) (t : Bytes) → log (H.on_string s t).1 ≡ string t ∷ log s
  pub at_number : (s : S) (t : Bytes) → log (H.on_number s t).1 ≡ number t ∷ log s
  pub at_begin_array : (s : S) → log (H.on_begin_array s).1 ≡ opened_array ∷ log s
  pub at_end_array : (s : S) → log (H.on_end_array s).1 ≡ closed_array ∷ log s
  pub at_begin_obj : (s : S) → log (H.on_begin_obj s).1 ≡ opened_obj ∷ log s
  pub at_obj_key : (s : S) (t : Bytes) → log (H.on_obj_key s t).1 ≡ key t ∷ log s
  pub at_end_obj : (s : S) → log (H.on_end_obj s).1 ≡ closed_obj ∷ log s
  pub at_bool : (s : S) (b : Bool) → log (H.on_bool s b).1 ≡ boolean b ∷ log s
  pub at_null : (s : S) → log (H.on_null s).1 ≡ null_value ∷ log s
  pub at_end_json : (s : S) → log (H.on_end_json s).1 ≡ ended (H.on_end_json s).0 ∷ log s
  pub at_error : (s : S) (why : Complaint) (line pos : ℕ) → log (H.on_error s why line pos) ≡ log s
