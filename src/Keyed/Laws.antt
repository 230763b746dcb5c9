-- ===== src/Keyed/Laws.antt =====
-- What the loops over named entries keep, and how they read through `find`.
use router_docker.Prelude.{
  ◌≡◌, refl, ◌⊎◌, inl, inr, true, false, ◌||◌, none, some, List, [], ◌∷◌, ◌++◌, if◌then◌else◌,
  arith, All, All-append, Bool-cases, is_empty,
}
use router_docker.Text.{Bytes, equal, is_some}
use router_docker.Text.Laws.{equal_iff, equal_refl}
use router_docker.Keyed.{has, without, remove_first, replace, find, distinct}

equal-empty : (s : Bytes) → is_empty s ≡ false → equal s [] ≡ false
unfolding equal
equal-empty [] h = cc
equal-empty (c ∷ s) h = refl

module _ {A : Type 0} (key : A → Bytes) where
  pub has-find : (name : Bytes) (es : List A) → has key name es ≡ is_some (find key name es)
  unfolding has find
  has-find name [] = refl
  has-find name (e ∷ es) = ground (arith, has-find name es)

  pub has-append :
      (name : Bytes) (es : List A) (y : A)
      → has key name (es ++ y ∷ []) ≡ (has key name es || equal (key y) name)
  unfolding has
  has-append name [] y = ground arith
  has-append name (e ∷ es) y = ground (arith, has-append name es y)

  pub has-without :
      (m name : Bytes) (es : List A)
      → has key name es ≡ false
      → has key name (without key m es) ≡ false
  unfolding has without
  has-without m name [] h = refl
  has-without m name (e ∷ es) h = ground (arith, has-without m name es)

  pub has-replace :
      (name m : Bytes) (y : A) (es : List A)
      → key y ≡ m
      → has key name (replace key m y es) ≡ has key name es
  unfolding has replace
  has-replace name m y [] h = refl
  has-replace name m y (e ∷ es) h = ground (arith, has-replace name m y es h, equal_iff (key e) m)

  pub distinct-append :
      (es : List A) (y : A)
      → distinct key es ≡ true
      → has key (key y) es ≡ false
      → distinct key (es ++ y ∷ []) ≡ true
  unfolding distinct has
  distinct-append [] y d h = refl
  distinct-append (e ∷ es) y d h = ground (
    arith,
    has-append (key e) es y,
    distinct-append es y,
    equal_iff (key y) (key e),
    equal_iff (key e) (key y),
  )

  pub distinct-without :
      (m : Bytes) (es : List A) → distinct key es ≡ true → distinct key (without key m es) ≡ true
  unfolding distinct without
  distinct-without m [] d = refl
  distinct-without m (e ∷ es) d = ground (arith, has-without m (key e) es, distinct-without m es)

  pub distinct-replace :
      (m : Bytes) (y : A) (es : List A)
      → key y ≡ m
      → distinct key es ≡ true
      → distinct key (replace key m y es) ≡ true
  unfolding distinct replace
  distinct-replace m y [] h d = refl
  distinct-replace m y (e ∷ es) h d =
      ground (arith, has-replace (key e) m y es h, distinct-replace m y es h, equal_iff (key e) m)

  has-rename :
      (name m : Bytes) (y : A) (es : List A)
      → has key name es ≡ false
      → equal (key y) name ≡ false
      → has key name (replace key m y es) ≡ false
  unfolding has replace
  has-rename name m y [] h k = refl
  has-rename name m y (e ∷ es) h k = ground (arith, has-rename name m y es)

  -- a rename to a name that is free, or to the same name
  pub distinct-rename :
      (m : Bytes) (y : A) (es : List A)
      → (equal (key y) m ≡ true) ⊎ (has key (key y) es ≡ false)
      → distinct key es ≡ true
      → distinct key (replace key m y es) ≡ true
  unfolding distinct replace has
  distinct-rename m y es (inl same) d = distinct-replace m y es ((equal_iff (key y) m).0 same) d
  distinct-rename m y [] (inr free) d = refl
  distinct-rename m y (e ∷ es) (inr free) d = ground (
    arith,
    has-rename (key e) m y es,
    distinct-rename m y es,
    equal_iff (key y) (key e),
    equal_iff (key e) (key y),
  )

  pub All-without : (P : A → Type 0) (m : Bytes) (es : List A) → All P es → All P (without key m es)
  unfolding without
  All-without P m [] a = tt
  All-without P m (e ∷ es) a = elim (Bool-cases (equal (key e) m)) [
    | inl same ↦ rw same (All-without P m es a.1)
    | inr other ↦ rw other (a.0, All-without P m es a.1)
  ]

  pub All-remove_first :
      (P : A → Type 0) (m : Bytes) (es : List A) → All P es → All P (remove_first key m es)
  unfolding remove_first
  All-remove_first P m [] a = tt
  All-remove_first P m (e ∷ es) a = elim (Bool-cases (equal (key e) m)) [
    | inl same ↦ rw same a.1
    | inr other ↦ rw other (a.0, All-remove_first P m es a.1)
  ]

  has-remove_first :
      (m name : Bytes) (es : List A)
      → has key name es ≡ false
      → has key name (remove_first key m es) ≡ false
  unfolding has remove_first
  has-remove_first m name [] h = refl
  has-remove_first m name (e ∷ es) h = ground (arith, has-remove_first m name es)

  pub distinct-remove_first :
      (m : Bytes) (es : List A)
      → distinct key es ≡ true
      → distinct key (remove_first key m es) ≡ true
  unfolding distinct remove_first
  distinct-remove_first m [] d = refl
  distinct-remove_first m (e ∷ es) d =
      ground (arith, has-remove_first m (key e) es, distinct-remove_first m es)

  pub All-replace :
      (P : A → Type 0) (m : Bytes) (y : A) (es : List A)
      → P y
      → All P es
      → All P (replace key m y es)
  unfolding replace
  All-replace P m y [] p a = tt
  All-replace P m y (e ∷ es) p a = elim (Bool-cases (equal (key e) m)) [
    | inl same ↦ rw same (p, a.1)
    | inr other ↦ rw other (a.0, All-replace P m y es p a.1)
  ]

  -- What was added last is taken away again.
  pub without-append :
      (es : List A) (y : A) → has key (key y) es ≡ false → without key (key y) (es ++ y ∷ []) ≡ es
  unfolding without has
  without-append [] y h = rw (equal_refl (key y)) refl
  without-append (e ∷ es) y h = ground (arith, without-append es y)

  pub find-append :
      (name : Bytes) (es : List A) (y : A)
      → has key (key y) es ≡ false
      → find key name (es ++ y ∷ []) ≡ (if equal (key y) name then some y else find key name es)
  unfolding find has
  find-append name [] y h = refl
  find-append name (e ∷ es) y h = ground (
    arith,
    find-append name es y,
    equal_iff (key y) name,
    equal_iff (key e) name,
    equal_iff (key e) (key y),
  )

  pub find-replace :
      (name m : Bytes) (y : A) (es : List A)
      → key y ≡ m
      → has key m es ≡ true
      → find key name (replace key m y es) ≡ (if equal m name then some y else find key name es)
  unfolding find has replace
  find-replace name m y [] k h = ground arith
  find-replace name m y (e ∷ es) k h = ground (
    arith,
    find-replace name m y es k,
    equal_iff (key y) name,
    equal_iff m name,
    equal_iff (key e) name,
    equal_iff (key e) m,
  )

  pub find-without :
      (name m : Bytes) (es : List A)
      → find key name (without key m es) ≡ (if equal m name then none else find key name es)
  unfolding find without
  find-without name m [] = ground arith
  find-without name m (e ∷ es) =
      ground (
        arith,
        find-without name m es,
        equal_iff m name,
        equal_iff (key e) name,
        equal_iff (key e) m,
      )

  has_named :
      (P : A → Type 0) (es : List A)
      → ((e : A) → P e → is_empty (key e) ≡ false)
      → All P es
      → has key [] es ≡ false
  unfolding has equal
  has_named P [] n a = refl
  has_named P (e ∷ es) n a = rw (equal-empty (key e) (n e a.0)) (has_named P es n a.1)

  -- A name that is found is not empty, where no entry's name is.
  found_named :
      (P : A → Type 0) (name : Bytes) (es : List A)
      → ((e : A) → P e → is_empty (key e) ≡ false)
      → All P es
      → has key name es ≡ true
      → is_empty name ≡ false
  found_named P [] es n a h = absurd (cc (has_named P es n a))
  found_named P (c ∷ s) es n a h = refl

-- Every entry has the property, and the names are distinct.
pub record IsNamed {A : Type 0} (key : A → Bytes) (P : A → Type 0) (es : List A) : Type 0 where
  pub entries : All P es
  pub names : distinct key es ≡ true

module _ {A : Type 0} (key : A → Bytes) (P : A → Type 0) where
  pub append-IsNamed :
      (es : List A) (y : A)
      → P y
      → has key (key y) es ≡ false
      → IsNamed key P es
      → IsNamed key P (es ++ y ∷ [])
  append-IsNamed es y p free v = record {
    entries = All-append P es (y ∷ []) v.entries (p, tt);
    names = distinct-append key es y v.names free;
  }

  pub without-IsNamed :
      (name : Bytes) (es : List A) → IsNamed key P es → IsNamed key P (without key name es)
  without-IsNamed name es v = record {
    entries = All-without key P name es v.entries;
    names = distinct-without key name es v.names;
  }

  pub replace-IsNamed :
      (name : Bytes) (y : A) (es : List A)
      → ((e : A) → P e → is_empty (key e) ≡ false)
      → key y ≡ name
      → has key name es ≡ true
      → (is_empty name ≡ false → P y)
      → IsNamed key P es
      → IsNamed key P (replace key name y es)
  replace-IsNamed name y es n k there p v = record {
    entries =
        All-replace key P name y es (p (found_named key P name es n v.entries there)) v.entries;
    names = distinct-replace key name y es k v.names;
  }
