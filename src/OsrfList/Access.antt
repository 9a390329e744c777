-- ===== src/OsrfList/Access.antt =====
-- What the operations of src/libopensrf/osrf_list.c do to each position, as a client reads it.
use open_srf.Prelude.{
  ℕ, ◌+◌, ◌≤◌, ◌≡◌, ◌∙◌, Option, none, [], ◌∷◌, arith, ltb, leb, ◌==◌, if◌then◌else◌, get_or,
}
use open_srf.OsrfList.{OsrfList, shrink, get_index, extract, remove, expand, store, set_item, clear}
use open_srf.OsrfList.Valid.{
  max_position, IsValid, expand-Expanded, slot-set, list-remove, remove-IsValid, extract-IsValid,
  arrsize-remove, set_item-IsValid, get_or-nullify,
}

module _ {A : Type 0} where
  -- In a valid list the test against `size` makes no difference to what is read.
  pub get_index-slot :
      {l : OsrfList A} (i : ℕ) → IsValid l → get_index l i ≡ get_or l.arrlist i none
  unfolding get_index
  get_index-slot {l} i v = ground (arith, v.unused i)

  pub get_index-extract :
      {l : OsrfList A} (p i : ℕ)
      → IsValid l
      → get_index (extract l p).0 i ≡ (if p == i then none else get_index l i)
  get_index-extract {l} p i v =
      get_index-slot i (extract-IsValid p v) ∙ slots ∙ ground (arith, get_index-slot i v)
    where
      slots :
          get_or (extract l p).0.arrlist i none ≡ (if p == i then none else get_or l.arrlist i none)
      slots =
          unfold extract in
          ground (arith, slot-set l.arrlist p i none, v.allocated, v.within, v.unused i)

  -- Reading any position of a valid list after `osrfListRemove`: the position removed is empty and
  -- every other position reads as before. What was there is handed to the callback, if one is
  -- installed and the position is below `size`, and is returned otherwise.
  pub remove_lem :
      {l : OsrfList A} (p : ℕ)
      → IsValid l
      → let r = remove l p in
        ((i : ℕ) → get_index r.list i ≡ (if p == i then none else get_index l i))
        × (r.freed
            ≡ (if l.free_item then (if ltb p l.size then get_index l p ∷ [] else []) else []))
        × (r.item ≡ (if l.free_item then none else get_index l p))
  remove_lem {l} p v = (
    λ i. rw list-remove (get_index-extract p i v),
    unfold remove extract get_index in ground arith,
    unfold remove extract get_index in ground arith,
  )

  slots-set_item :
      {l : OsrfList A} (x : Option A) (p i : ℕ)
      → IsValid l
      → p ≤ max_position
      → get_or (set_item l x p).list.arrlist i none
        ≡ (if p == i then x else get_or l.arrlist i none)
  slots-set_item {l} x p i v h =
      let e = expand-Expanded p v h in
      let r = (remove (expand l p) p).list in
      let w = remove-IsValid p e.valid in
      let same = (remove_lem p e.valid).0 i in
      let stored : get_or (set_item l x p).list.arrlist i none
          ≡ (if p == i then x else get_or r.arrlist i none) =
        unfold set_item store in
        slot-set r.arrlist p i x
          (omega (arith, e.room, w.allocated, arrsize-remove (expand l p) p)) in
      stored ∙ ground (arith, get_index-slot i w, same, get_index-slot i e.valid, e.same_slots i)

  -- `osrfListSet` at any position that an `int` leaves room for, on a valid list: that position then
  -- reads as the stored pointer, and every other position as before.
  pub get_index-set_item :
      {l : OsrfList A} (x : Option A) (p i : ℕ)
      → IsValid l
      → p ≤ max_position
      → get_index (set_item l x p).list i ≡ (if p == i then x else get_index l i)
  get_index-set_item {l} x p i v h =
      get_index-slot i (set_item-IsValid x p v h)
      ∙ slots-set_item x p i v h
      ∙ ground (arith, get_index-slot i v)

  -- The count after `osrfListSet` at any position that an `int` leaves room for, on a valid list: as
  -- before for a position below it, and otherwise one more than the position.
  pub size-set_item :
      {l : OsrfList A} (x : Option A) (p : ℕ)
      → IsValid l
      → p ≤ max_position
      → (set_item l x p).list.size ≡ (if ltb p l.size then l.size else p + 1)
  unfolding set_item store remove extract
  size-set_item {l} x p v h = ground (arith, (expand-Expanded p v h).same_size)

  -- `osrfListSet` at any position that an `int` leaves room for, on a valid list, returns the
  -- previous occupant, or NULL if a callback is installed.
  item-set_item :
      {l : OsrfList A} (x : Option A) (p : ℕ)
      → IsValid l
      → p ≤ max_position
      → (set_item l x p).item ≡ (if l.free_item then none else get_index l p)
  unfolding set_item
  item-set_item {l} x p v h =
      let e = expand-Expanded p v h in
      (remove_lem p e.valid).2
      ∙ ground
          (arith, e.same_callback, get_index-slot p e.valid, get_index-slot p v, e.same_slots p)

  -- After `osrfListClear` a valid list has no count and reads as empty at every position.
  pub clear_lem :
      {l : OsrfList A} (i : ℕ)
      → IsValid l
      → ((clear l).0.size ≡ 0)
        × (get_index (clear l).0 i ≡ none)
        × (get_or (clear l).0.arrlist i none ≡ none)
  unfolding clear get_index
  clear_lem {l} i v = ground (arith, get_or-nullify l.size l.arrlist i, v.unused i)

  pub free_item-remove : (l : OsrfList A) (p : ℕ) → (remove l p).list.free_item ≡ l.free_item
  unfolding remove extract
  free_item-remove l p = ground arith

  pub free_item-set_item :
      (l : OsrfList A) (x : Option A) (p : ℕ) → (set_item l x p).list.free_item ≡ l.free_item
  unfolding set_item store expand
  free_item-set_item l x p = ground (arith, free_item-remove (expand l p) p)

  pub size-remove :
      (l : OsrfList A) (p : ℕ)
      → (remove l p).list.size ≡ (if leb l.size p then l.size else shrink l.size p)
  unfolding remove extract
  size-remove l p = ground arith
