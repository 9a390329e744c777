-- ===== src/JsonPush/Nesting.antt =====
-- The stack of src/libopensrf/jsonpush.c against the nesting of the events.
use open_srf.Prelude.{◌≡◌, Option, none, some, List, [], ◌∷◌, map, arith}
use open_srf.JsonPush.State.{
  State, begin, str, slash, utf8, num, array_begin, array_value, array_comma, obj_begin, obj_key,
  obj_colon, obj_value, obj_comma, true_word, false_word, null_word, end, StateNode, Parser,
}
use open_srf.JsonPush.Events.{
  Event, fresh, done, array, object, member, Place, fill, open_with, follow,
}

-- the states to come back to, innermost first
abbrev pub levels : Parser → List State
levels p = map (λ (n : StateNode). n.state) p.state_stack

-- the open arrays and objects, as they are once the value inside is complete
abbrev pub frames : List State → Option Place
frames (end ∷ []) = some (done ∷ [])
frames (array_value ∷ ss) = open_with array (frames ss)
frames (obj_value ∷ ss) = open_with object (frames ss)
frames _ = none

-- the place before a value that comes back to the given state
abbrev pub before : State → List State → Option Place
before end [] = some (fresh ∷ [])
before array_value ss = open_with array (frames ss)
before obj_value ss = open_with member (frames ss)
before _ _ = none

-- the same for a text, which may also be a key
abbrev pub before_text : State → List State → Option Place
before_text obj_key ss = open_with object (frames ss)
before_text s ss = before s ss

-- The place that a state and its stack stand for; `none` where they do not fit together.
unfoldable pub place : State → List State → Option Place
place begin [] = some (fresh ∷ [])
place end [] = some (done ∷ [])
place str (s ∷ ss) = before_text s ss
place slash (s ∷ ss) = before_text s ss
place utf8 (s ∷ ss) = before_text s ss
place num (s ∷ ss) = before s ss
place true_word (s ∷ ss) = before s ss
place false_word (s ∷ ss) = before s ss
place null_word (s ∷ ss) = before s ss
place array_begin ss = open_with array (frames ss)
place array_value ss = open_with array (frames ss)
place array_comma ss = open_with array (frames ss)
place obj_begin ss = open_with object (frames ss)
place obj_value ss = open_with object (frames ss)
place obj_comma ss = open_with object (frames ss)
place obj_key ss = open_with member (frames ss)
place obj_colon ss = open_with member (frames ss)
place _ _ = none

-- The state, its stack and the events agree on a place.
pub record Agrees (s : State) (ss : List State) (log : List Event) : Type 0 where
  pub at : Place
  pub by_state : place s ss ≡ some at
  pub by_events : follow log ≡ some at

-- The events so far may come in that order.
abbrev pub Followed : List Event → Type 0
Followed log = (k : Place) × (follow log ≡ some k)

-- Filling the place before a value gives the place that the stack stands for.
pub fill-before :
    (back : State) (ss : List State) (k : Place)
    → before back ss ≡ some k
    → (fill k ≡ frames (back ∷ ss)) × (frames (back ∷ ss) ≡ place back ss)
unfolding place
fill-before end [] k h = ground arith
fill-before array_value ss k h = ground arith
fill-before obj_value ss k h = ground arith
fill-before _ ss k h = ground arith
