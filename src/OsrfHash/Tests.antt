-- ===== src/OsrfHash/Tests.antt =====
-- Runs of the definitions of src/libopensrf/osrf_hash.c.
use open_srf.Prelude.{
  ℕ, ◌≤◌, ◌≡◌, refl, true, false, none, some, [], ◌∷◌, map, arith, if◌then◌else◌, length, Bytes,
  same_bytes,
}
use open_srf.StringArray.Strings.{IsStrings}
use open_srf.OsrfList.{get_index, set_item}
use open_srf.OsrfHash.{OsrfHash, new_hash, node_at, make_key, is_key, hash_set, hash_get, find_item}
use open_srf.OsrfHash.Deletion.{hash_remove}
use open_srf.OsrfHash.Entries.{entries, lookup}
use open_srf.OsrfHash.Erase.{calls, IsErased, hash_remove-IsErased}
use open_srf.OsrfHash.Find.{find_item-agree, hash_get-lookup}
use open_srf.OsrfHash.Parked.{iterate-hash_remove, iterator_next-removed_next}
use open_srf.OsrfHash.Put.{IsPut, hash_set-IsPut}
use open_srf.OsrfHash.Reading.{new_hash-IsHash, hash_get-hash_set}
use open_srf.OsrfHash.Traversal.{hash_keys, iterator_next, iterator_has_next}
use open_srf.OsrfHash.Walks.{drop, iterate, hash_keys-IsStrings, iterate-entries, IsParked}

-- "a", "b" and "c"
abbrev a : Bytes
a = b'a' ∷ []

abbrev b : Bytes
b = b'b' ∷ []

abbrev c : Bytes
c = b'c' ∷ []

bucket_test : make_key (b'a' ∷ b'b' ∷ []) ≡ 2
unfolding make_key
bucket_test = refl

abbrev one : OsrfHash ℕ
one = (hash_set new_hash (some 7) a).hash

abbrev two : OsrfHash ℕ
two = (hash_set one (some 8) b).hash

abbrev three : OsrfHash ℕ
three = (hash_set two (some 9) c).hash

size-new : length (new_hash {A = ℕ}).nodes ≡ 0
unfolding new_hash
size-new = refl

one-IsPut : IsPut new_hash a 7 one
one-IsPut = (hash_set-IsPut 7 a new_hash-IsHash.0 (omega (arith, size-new))).0

two-IsPut : IsPut one b 8 two
two-IsPut = (hash_set-IsPut 8 b one-IsPut.valid (omega (arith, size-new, one-IsPut.nodes))).0

three-IsPut : IsPut two c 9 three
three-IsPut =
    (hash_set-IsPut 9 c two-IsPut.valid
      (omega (arith, size-new, one-IsPut.nodes, two-IsPut.nodes))).0

two_bound : length two.nodes ≤ 2
two_bound = omega (arith, size-new, one-IsPut.nodes, two-IsPut.nodes)

entries_test : entries three.nodes ≡ (a, 7) ∷ (b, 8) ∷ (c, 9) ∷ []
unfolding hash_set new_hash entries get_index make_key set_item node_at
entries_test = refl

removed_test : entries (hash_remove three b).hash.nodes ≡ (a, 7) ∷ (c, 9) ∷ []
unfolding hash_set hash_remove new_hash entries get_index make_key set_item node_at is_key
    same_bytes
removed_test = refl

hash_set-IsPut_example :
    let r = hash_set two (some 9) c in
    IsPut two c 9 r.hash
    × (r.item ≡ (if two.free_item then none else lookup c (entries two.nodes)))
    × (r.freed ≡ calls two.free_item c (lookup c (entries two.nodes)))
hash_set-IsPut_example = hash_set-IsPut 9 c two-IsPut.valid (omega (arith, two_bound))

hash_remove-IsErased_example :
    let r = hash_remove three b in
    IsErased three b r.hash
    × (r.item ≡ (if three.free_item then none else lookup b (entries three.nodes)))
    × (r.freed ≡ calls three.free_item b (lookup b (entries three.nodes)))
hash_remove-IsErased_example = hash_remove-IsErased b three-IsPut.valid

hash_get-lookup_example : hash_get three b ≡ lookup b (entries three.nodes)
hash_get-lookup_example = hash_get-lookup b three-IsPut.valid

find_item-agree_example : find_item three b true ≡ find_item three b false
find_item-agree_example = find_item-agree b three-IsPut.valid

hash_keys-IsStrings_example : IsStrings (hash_keys three) (map (λ e. e.0) (entries three.nodes))
hash_keys-IsStrings_example = hash_keys-IsStrings three-IsPut.valid

parked : IsParked three none
unfolding IsParked
parked = three-IsPut.valid.linked.from

iterate-entries_example : iterate three 4 none ≡ map (λ e. e.1) (entries (drop 0 three.nodes))
iterate-entries_example =
    iterate-entries 4 none three-IsPut.valid parked (omega (arith, two_bound, three-IsPut.nodes))

key_at_0 : (node_at three.nodes 0).key ≡ some a
unfolding hash_set new_hash get_index make_key set_item node_at
key_at_0 = refl

key_at_1 : (node_at three.nodes 1).key ≡ some b
unfolding hash_set new_hash get_index make_key set_item node_at
key_at_1 = refl

next_at_0 : (node_at three.nodes 0).next ≡ some 1
unfolding hash_set new_hash get_index make_key set_item node_at
next_at_0 = refl

iterate-hash_remove_example :
    iterate (hash_remove three a).hash 4 (some 0) ≡ map (λ e. e.1) (entries (drop 1 three.nodes))
iterate-hash_remove_example =
    iterate-hash_remove 0 a 4 three-IsPut.valid key_at_0
      (omega (arith, two_bound, three-IsPut.nodes))

iterator_next-removed_next_example :
    let h = (hash_remove (hash_remove three a).hash b).hash in
    (iterator_has_next h (some 0) ≡ true) × (iterator_next h (some 0) ≡ (none, some 1))
iterator_next-removed_next_example =
    iterator_next-removed_next 0 1 a b three-IsPut.valid key_at_0 next_at_0 key_at_1

hash_get-hash_set_example :
    hash_get (hash_set two (some 9) c).hash a ≡ (if same_bytes c a then some 9 else hash_get two a)
hash_get-hash_set_example = hash_get-hash_set 9 c a two-IsPut.valid (omega (arith, two_bound))
