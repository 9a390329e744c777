-- ===== src/OsrfList/Tests.antt =====
-- Runs of the list of src/libopensrf/osrf_list.c, and its theorems at concrete lists.
use open_srf.Prelude.{ℕ, ◌≡◌, refl, true, false, none, some, [], ◌∷◌, arith, if◌then◌else◌, ◌==◌}
use open_srf.OsrfList.{
  OsrfList, new_list_size, get_index, set_item, remove, push, push_first, find, clear, grow,
  extract, pop, expand, store, iterator_next, free_list, find_from, first_free, items,
}
use open_srf.OsrfList.Valid.{IsValid}
use open_srf.OsrfList.Access.{get_index-set_item, remove_lem}
use open_srf.OsrfList.Search.{
  IsLeast, holds, IsPacked, find-IsLeast, push-IsPacked, new_list_size-IsPacked,
}

abbrev empty : OsrfList ℕ
unfolding new_list_size
empty = new_list_size 2

-- a gap at position 1
abbrev gap : OsrfList ℕ
gap = record {
  size = 3;
  free_item = false;
  arrlist = some 7 ∷ none ∷ some 9 ∷ none ∷ [];
  arrsize = 4;
}

gap-IsValid : IsValid gap
gap-IsValid = record {
  allocated = refl;
  within = omega arith;
  int_size = omega arith;
  unused = λ i h. ground arith;
}

-- A position behind the array makes it grow by one step.
set_item_test : (set_item gap (some 5) 6).list.arrsize ≡ 260
unfolding set_item expand grow store remove extract
set_item_test = refl

last_in_test : (pop (push gap (some 4)).list).item ≡ some 4
unfolding push pop set_item expand grow store remove extract
last_in_test = refl

find_test : find (λ x y. x == y) gap 9 ≡ some 2
unfolding find find_from
find_test = refl

push_first_test : get_index (push_first gap (some 8)).1.list 1 ≡ some 8
unfolding push_first first_free set_item expand grow store remove extract get_index
push_first_test = refl

iterator_next_test : iterator_next gap 2 ≡ (some 9, 3)
unfolding iterator_next
iterator_next_test = refl

clear_test : (clear (record gap { free_item = true })).1 ≡ 7 ∷ 9 ∷ []
unfolding clear free_list items
clear_test = refl

get_index-set_item_example : get_index (set_item gap (some 5) 6).list 6 ≡ some 5
get_index-set_item_example = get_index-set_item (some 5) 6 6 gap-IsValid (omega arith)

remove_lem_example :
    ((i : ℕ) → get_index (remove gap 2).list i ≡ (if 2 == i then none else get_index gap i))
    × ((remove gap 2).freed ≡ [])
    × ((remove gap 2).item ≡ some 9)
unfolding get_index
remove_lem_example = remove_lem 2 gap-IsValid

find-IsLeast_example :
    IsLeast (λ j. holds (λ x y. x == y) 9 (get_index gap j)) (find (λ x y. x == y) gap 9)
find-IsLeast_example = find-IsLeast (λ x y. x == y) 9 gap-IsValid

push-IsPacked_example : IsPacked {A = ℕ} (push (new_list_size 2) (some 7)).list (7 ∷ [])
unfolding new_list_size
push-IsPacked_example = push-IsPacked 7 (new_list_size-IsPacked 2 (omega arith)) (omega arith)
