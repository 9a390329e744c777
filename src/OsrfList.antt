-- ===== src/OsrfList.antt =====
-- src/libopensrf/osrf_list.c: the osrfList, an array of pointers that grows.
-- A slot is an option, `none` for NULL. Each operation that may run the callback `freeItem` also
-- returns the arguments of its calls, in order.

pub mod Valid
pub mod Access
pub mod Search
mod Tests
use open_srf.Prelude.{
  ℕ, zero, suc, ◌+◌, ◌-◌, ◌%◌, ◌^◌, Bool, true, false, Option, none, some, List, [], ◌∷◌, ◌++◌, ltb,
  leb, ◌==◌, if◌then◌else◌, get_or, set, replicate,
}

abbrev pub list_inc_size : ℕ
list_inc_size = 256

abbrev pub list_default_size : ℕ
list_default_size = 48

-- `unsigned int`
abbrev pub uint_mod : ℕ
uint_mod = 2 ^ 32

-- `struct _osrfListStruct`; `free_item` says whether a callback is installed.
pub record OsrfList {ℓ} (A : Type ℓ) : Type ℓ where
  pub size : ℕ
  pub free_item : Bool
  pub arrlist : List (Option A)
  pub arrsize : ℕ

-- `while( position >= newsize ) newsize += OSRF_LIST_INC_SIZE;`
unfoldable pub grow : ℕ → ℕ → ℕ → ℕ
grow zero position newsize = newsize
grow (suc fuel) position newsize =
    let rest = grow fuel position (newsize + list_inc_size) in
    if leb newsize position then rest else newsize

-- what an operation leaves behind, passes to `freeItem`, and returns
pub record Outcome {ℓ} (A : Type ℓ) : Type ℓ where
  pub list : OsrfList A
  pub freed : List (Option A)
  pub item : Option A

-- `if( position == list->size - 1 ) list->size--;`, where `list->size` is not 0
abbrev pub shrink : ℕ → ℕ → ℕ
shrink size position = if position == size - 1 then size - 1 else size

-- `osrfListIteratorReset`, on the iterator's `current`
unfoldable pub iterator_reset : ℕ → ℕ
iterator_reset current = 0

module _ {ℓ} {A : Type ℓ} where
  unfoldable pub new_list_size : ℕ → OsrfList A
  new_list_size size =
      let n = if size == 0 then 16 else size in
      record { size = 0; free_item = false; arrlist = replicate n none; arrsize = n }

  unfoldable pub new_list : OsrfList A
  unfolding new_list_size
  new_list = new_list_size list_default_size

  -- `OSRF_LIST_GET_INDEX` and `osrfListGetIndex`
  unfoldable pub get_index : OsrfList A → ℕ → Option A
  get_index l position = if leb l.size position then none else get_or l.arrlist position none

  unfoldable pub extract : OsrfList A → ℕ → OsrfList A × Option A
  extract l position = if leb l.size position then (l, none) else (
    record l { arrlist = set l.arrlist position none; size = shrink l.size position },
    get_or l.arrlist position none,
  )

  -- `osrfListRemove`; the callback is called for an empty slot too.
  unfoldable pub remove : OsrfList A → ℕ → Outcome A
  unfolding extract
  remove l position =
      if leb l.size position
      then record { list = l; freed = []; item = none }
      else let (l', old) = extract l position in
        if l.free_item
        then record { list = l'; freed = old ∷ []; item = none }
        else record { list = l'; freed = []; item = old }

  -- the part of `osrfListSet` that makes room: a longer array, its new slots NULL
  unfoldable pub expand : OsrfList A → ℕ → OsrfList A
  unfolding grow
  expand l position =
      let newsize = grow (suc position) position l.arrsize in
      if ltb l.arrsize newsize
      then record l {
        arrlist = l.arrlist ++ replicate (newsize - l.arrsize) none;
        arrsize = newsize;
      }
      else l

  -- `list->arrlist[position] = item; if( list->size <= position ) list->size = position + 1;`
  unfoldable pub store : OsrfList A → Option A → ℕ → OsrfList A
  store l item position = record l {
    arrlist = set l.arrlist position item;
    size = if leb l.size position then (position + 1) % uint_mod else l.size;
  }

  -- `osrfListSet`
  unfoldable pub set_item : OsrfList A → Option A → ℕ → Outcome A
  unfolding expand remove store
  set_item l item position =
      let r = remove (expand l position) position in
      record { list = store r.list item position; freed = r.freed; item = r.item }

  unfoldable pub push : OsrfList A → Option A → Outcome A
  unfolding set_item
  push l item = set_item l item l.size

  -- the loop of `osrfListPushFirst`: the index of the first NULL below `size`, or `size`
  unfoldable pub first_free : List (Option A) → ℕ → ℕ → ℕ
  first_free xs zero i = i
  first_free [] (suc n) i = i
  first_free (none ∷ xs) (suc n) i = i
  first_free (some x ∷ xs) (suc n) i = first_free xs n (i + 1)

  -- `osrfListPushFirst`; the first result is the returned count, `none` for the -1 of a NULL item.
  unfoldable pub push_first : OsrfList A → Option A → Option ℕ × Outcome A
  unfolding first_free set_item
  push_first l none = (none, record { list = l; freed = []; item = none })
  push_first l (some x) =
      let r = set_item l (some x) (first_free l.arrlist l.size 0) in (some r.list.size, r)

  -- the non-NULL pointers among the first `n` slots, in order
  unfoldable pub items : ℕ → List (Option A) → List A
  items zero xs = []
  items (suc n) [] = []
  items (suc n) (none ∷ xs) = items n xs
  items (suc n) (some x ∷ xs) = x ∷ items n xs

  -- the array after the loop of `osrfListClear`: NULL in the first `n` slots
  unfoldable pub nullify : ℕ → List (Option A) → List (Option A)
  nullify zero xs = xs
  nullify (suc n) [] = []
  nullify (suc n) (x ∷ xs) = none ∷ nullify n xs

  -- `osrfListFree`: the arguments of the calls of `freeItem`
  unfoldable pub free_list : OsrfList A → List A
  unfolding items
  free_list l = if l.free_item then items l.size l.arrlist else []

  unfoldable pub clear : OsrfList A → OsrfList A × List A
  unfolding free_list nullify
  clear l = (record l { arrlist = nullify l.size l.arrlist; size = 0 }, free_list l)

  unfoldable pub pop : OsrfList A → Outcome A
  unfolding remove
  pop l = remove l ((l.size + uint_mod - 1) % uint_mod)

  -- the loop of `osrfListFind`; `same` compares two pointers
  unfoldable pub find_from : (A → A → Bool) → A → List (Option A) → ℕ → ℕ → Option ℕ
  find_from same addr xs zero i = none
  find_from same addr [] (suc n) i = none
  find_from same addr (none ∷ xs) (suc n) i = find_from same addr xs n (i + 1)
  find_from same addr (some x ∷ xs) (suc n) i =
      let rest = find_from same addr xs n (i + 1) in if same x addr then some i else rest

  -- `osrfListFind`, `none` for -1
  unfoldable pub find : (A → A → Bool) → OsrfList A → A → Option ℕ
  unfolding find_from
  find same l addr = find_from same addr l.arrlist l.size 0

  -- `osrfListIteratorNext`; the second part is the iterator's new `current`
  unfoldable pub iterator_next : OsrfList A → ℕ → Option A × ℕ
  iterator_next l current =
      if leb l.size current then (none, current) else (get_or l.arrlist current none, current + 1)

  -- `osrfListSwap`
  unfoldable pub swap : OsrfList A → OsrfList A → OsrfList A × OsrfList A
  swap one two = (two, one)

  -- `osrfListGetCount`
  unfoldable pub get_count : OsrfList A → ℕ
  get_count l = l.size

  -- `osrfListSetDefaultFree`
  unfoldable pub set_default_free : OsrfList A → OsrfList A
  set_default_free l = record l { free_item = true }
