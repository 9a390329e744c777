-- ===== src/OsrfHash/Entries.antt =====
-- What src/libopensrf/osrf_hash.c promises: an association list in the order of the keys' first
-- insertion, and the list that a store of nodes stands for.
use open_srf.Prelude.{
  ℕ, zero, suc, ◌<◌, ◌≤◌, ◌≡◌, ◌≢◌, refl, ap, sym, ◌∙◌, true, false, inl, inr, Option, none, some,
  List, [], ◌∷◌, ◌++◌, arith, if◌then◌else◌, Bool-cases, length, set, Bytes, same_bytes,
  same_bytes_lem,
}
use open_srf.OsrfHash.{Node, node_at, set_node_item}
use open_srf.OsrfHash.Deletion.{mark_deleted}

same_bytes_refl : (key : Bytes) → same_bytes key key ≡ true
same_bytes_refl key = (same_bytes_lem key key).1 refl

other_bytes : (a b : Bytes) → some a ≢ some b → same_bytes a b ≡ false
other_bytes a b h = elim (Bool-cases (same_bytes a b)) [
  | inl e ↦ absurd (h (ap some ((same_bytes_lem a b).0 e)))
  | inr e ↦ e
]

module _ {A : Type 0} where
  -- the item for a key
  unfoldable pub lookup : Bytes → List (Bytes × A) → Option A
  lookup key [] = none
  lookup key ((k, x) ∷ es) = if same_bytes k key then some x else lookup key es

  -- an item for a key: in place, or behind all others
  unfoldable pub put : Bytes → A → List (Bytes × A) → List (Bytes × A)
  put key v [] = (key, v) ∷ []
  put key v ((k, x) ∷ es) = if same_bytes k key then (k, v) ∷ es else (k, x) ∷ put key v es

  unfoldable pub erase : Bytes → List (Bytes × A) → List (Bytes × A)
  erase key [] = []
  erase key ((k, x) ∷ es) = if same_bytes k key then es else (k, x) ∷ erase key es

  -- what a node with this key and this item contributes
  abbrev pub cons_entry : Option Bytes → Option A → List (Bytes × A) → List (Bytes × A)
  cons_entry none x es = es
  cons_entry (some k) none es = es
  cons_entry (some k) (some x) es = (k, x) ∷ es

  -- the entries of the nodes that are not deleted, in the order of their allocation
  unfoldable pub entries : List (Node A) → List (Bytes × A)
  entries [] = []
  entries (n ∷ ns) = cons_entry n.key n.item (entries ns)

  -- node `i` is the first with this key
  pub record IsFirst (ns : List (Node A)) (key : Bytes) (i : ℕ) : Type 0 where
    pub here : (node_at ns i).key ≡ some key
    pub before : (j : ℕ) → j < i → (node_at ns j).key ≢ some key

  IsFirst-tail :
      {n : Node A} {ns : List (Node A)} {key : Bytes} {i : ℕ}
      → IsFirst (n ∷ ns) key (suc i)
      → IsFirst ns key i
  unfolding node_at
  IsFirst-tail f = record { here = f.here; before = λ j h. f.before (suc j) (omega arith) }

  cons_entry-append :
      (k : Option Bytes) (x : Option A) (es fs : List (Bytes × A))
      → cons_entry k x (es ++ fs) ≡ cons_entry k x es ++ fs
  cons_entry-append none x es fs = refl
  cons_entry-append (some k) none es fs = refl
  cons_entry-append (some k) (some x) es fs = refl

  length-cons_entry :
      (k : Option Bytes) (x : Option A) (es fs : List (Bytes × A))
      → length es ≡ suc (length fs)
      → length (cons_entry k x es) ≡ suc (length (cons_entry k x fs))
  length-cons_entry none x es fs h = h
  length-cons_entry (some k) none es fs h = h
  length-cons_entry (some k) (some x) es fs h = ap suc h

  -- an entry under another key is passed over
  lookup-cons_entry :
      (k : Option Bytes) (x : Option A) (key : Bytes) (es : List (Bytes × A))
      → k ≢ some key
      → lookup key (cons_entry k x es) ≡ lookup key es
  unfolding lookup
  lookup-cons_entry none x key es h = refl
  lookup-cons_entry (some k) none key es h = refl
  lookup-cons_entry (some k) (some x) key es h = rw (other_bytes k key h)

  put-cons_entry :
      (k : Option Bytes) (x : Option A) (key : Bytes) (v : A) (es : List (Bytes × A))
      → k ≢ some key
      → put key v (cons_entry k x es) ≡ cons_entry k x (put key v es)
  unfolding put
  put-cons_entry none x key v es h = refl
  put-cons_entry (some k) none key v es h = refl
  put-cons_entry (some k) (some x) key v es h = rw (other_bytes k key h)

  erase-cons_entry :
      (k : Option Bytes) (x : Option A) (key : Bytes) (es : List (Bytes × A))
      → k ≢ some key
      → erase key (cons_entry k x es) ≡ cons_entry k x (erase key es)
  unfolding erase
  erase-cons_entry none x key es h = refl
  erase-cons_entry (some k) none key es h = refl
  erase-cons_entry (some k) (some x) key es h = rw (other_bytes k key h)

  pub lookup-absent :
      (ns : List (Node A)) (key : Bytes)
      → ((i : ℕ) → (node_at ns i).key ≢ some key)
      → lookup key (entries ns) ≡ none
  unfolding lookup entries node_at
  lookup-absent [] key h = refl
  lookup-absent (n ∷ ns) key h =
      lookup-cons_entry n.key n.item key (entries ns) (h 0) ∙ lookup-absent ns key (λ i. h (suc i))

  pub put-absent :
      (ns : List (Node A)) (key : Bytes) (v : A)
      → ((i : ℕ) → (node_at ns i).key ≢ some key)
      → put key v (entries ns) ≡ entries ns ++ (key, v) ∷ []
  unfolding put entries node_at
  put-absent [] key v h = refl
  put-absent (n ∷ ns) key v h =
      put-cons_entry n.key n.item key v (entries ns) (h 0)
      ∙ ap (cons_entry n.key n.item) (put-absent ns key v (λ i. h (suc i)))
      ∙ cons_entry-append n.key n.item (entries ns) ((key, v) ∷ [])

  pub entries-append : (ns ms : List (Node A)) → entries (ns ++ ms) ≡ entries ns ++ entries ms
  unfolding entries
  entries-append [] ms = refl
  entries-append (n ∷ ns) ms =
      ap (cons_entry n.key n.item) (entries-append ns ms)
      ∙ cons_entry-append n.key n.item (entries ns) (entries ms)

  pub lookup-first :
      (ns : List (Node A)) {key : Bytes} {i : ℕ} {x : A}
      → IsFirst ns key i
      → (node_at ns i).item ≡ some x
      → lookup key (entries ns) ≡ some x
  unfolding lookup entries node_at
  lookup-first [] f e = absurd (cc)
  lookup-first (n ∷ ns) {key} {i = zero} {x} f e = rw (f.here, e, same_bytes_refl key)
  lookup-first (n ∷ ns) {key} {i = suc i} f e =
      lookup-cons_entry n.key n.item key (entries ns) (f.before 0 (omega arith))
      ∙ lookup-first ns (IsFirst-tail f) e

  -- an item that is replaced
  pub put-first :
      (ns : List (Node A)) {key : Bytes} {i : ℕ} {x : A} (v : A)
      → IsFirst ns key i
      → (node_at ns i).item ≡ some x
      → entries (set_node_item ns i v) ≡ put key v (entries ns)
  unfolding put entries node_at set_node_item
  put-first [] v f e = absurd (cc)
  put-first (n ∷ ns) {key} {i = zero} {x} v f e = rw (f.here, e, same_bytes_refl key)
  put-first (n ∷ ns) {key} {i = suc i} v f e =
      ap (cons_entry n.key n.item) (put-first ns v (IsFirst-tail f) e)
      ∙ sym (put-cons_entry n.key n.item key v (entries ns) (f.before 0 (omega arith)))

  -- a node that is deleted
  pub erase-first :
      (ns : List (Node A)) {key : Bytes} {i : ℕ} {x : A}
      → IsFirst ns key i
      → (node_at ns i).item ≡ some x
      → (entries (mark_deleted ns i) ≡ erase key (entries ns))
        × (length (entries ns) ≡ suc (length (entries (mark_deleted ns i))))
  unfolding erase entries node_at mark_deleted
  erase-first [] f e = absurd (cc)
  erase-first (n ∷ ns) {key} {i = zero} {x} f e = rw (f.here, e, same_bytes_refl key) (refl, refl)
  erase-first (n ∷ ns) {key} {i = suc i} f e =
      let (erased, counted) = erase-first ns (IsFirst-tail f) e in
      (
        ap (cons_entry n.key n.item) erased
            ∙ sym (erase-cons_entry n.key n.item key (entries ns) (f.before 0 (omega arith))),
        length-cons_entry n.key n.item _ _ counted,
      )

  -- a node that is written with the same key and item
  pub entries-set :
      (ns : List (Node A)) (i : ℕ) (n : Node A)
      → n.key ≡ (node_at ns i).key
      → n.item ≡ (node_at ns i).item
      → entries (set ns i n) ≡ entries ns
  unfolding entries node_at
  entries-set [] i n e e' = refl
  entries-set (m ∷ ns) zero n e e' = rw (e, e')
  entries-set (m ∷ ns) (suc i) n e e' = ap (cons_entry m.key m.item) (entries-set ns i n e e')

  length-cons_entry_le :
      (k : Option Bytes) (x : Option A) (es : List (Bytes × A))
      → length (cons_entry k x es) ≤ suc (length es)
  length-cons_entry_le none x es = omega arith
  length-cons_entry_le (some k) none es = omega arith
  length-cons_entry_le (some k) (some x) es = omega arith

  pub length-entries : (ns : List (Node A)) → length (entries ns) ≤ length ns
  unfolding entries
  length-entries [] = omega arith
  length-entries (n ∷ ns) =
      omega (arith, length-entries ns, length-cons_entry_le n.key n.item (entries ns))

  pub erase-absent :
      (ns : List (Node A)) (key : Bytes)
      → ((i : ℕ) → (node_at ns i).key ≢ some key)
      → erase key (entries ns) ≡ entries ns
  unfolding erase entries node_at
  erase-absent [] key h = refl
  erase-absent (n ∷ ns) key h =
      erase-cons_entry n.key n.item key (entries ns) (h 0)
      ∙ ap (cons_entry n.key n.item) (erase-absent ns key (λ i. h (suc i)))
