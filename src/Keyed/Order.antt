-- ===== src/Keyed/Order.antt =====
-- `sort.Slice` by a text field: insertion sort, which is the order that the library gives where no
-- two fields are equal.
use router_docker.Prelude.{
  ◌≡◌, refl, inl, inr, Bool, true, false, ◌&&◌, ◌||◌, List, [], ◌∷◌, ltb, ◌==◌, if◌then◌else◌,
  arith, All, Bool-cases,
}
use router_docker.Text.{Bytes, equal}
use router_docker.Text.Laws.{equal_iff}
use router_docker.Keyed.{has, distinct}

-- `a < b` on strings
unfoldable pub less : Bytes → Bytes → Bool
less [] [] = false
less [] (d ∷ t) = true
less (c ∷ s) [] = false
less (c ∷ s) (d ∷ t) = ltb c d || ((c == d) && less s t)

module _ {A : Type 0} (key : A → Bytes) where
  -- before the first entry that is greater
  unfoldable pub insert : A → List A → List A
  unfolding less
  insert y [] = y ∷ []
  insert y (e ∷ es) =
      let rest = e ∷ insert y es in if less (key y) (key e) then y ∷ (e ∷ es) else rest

  unfoldable pub sort : List A → List A
  unfolding insert
  sort [] = []
  sort (e ∷ es) = insert e (sort es)

  -- `key e` stands before those of all the entries
  unfoldable pub is_first : Bytes → List A → Bool
  is_first k [] = true
  is_first k (e ∷ es) = less k (key e) && is_first k es

  -- strictly ascending
  unfoldable pub ascending : List A → Bool
  ascending [] = true
  ascending (e ∷ es) = is_first (key e) es && ascending es

less-linear : (a b : Bytes) → less a b ≡ false → equal b a ≡ false → less b a ≡ true
unfolding less equal
less-linear [] [] h e = cc
less-linear [] (d ∷ t) h e = cc
less-linear (c ∷ s) [] h e = refl
less-linear (c ∷ s) (d ∷ t) h e = ground (arith, less-linear s t)

less_trans : (a b c : Bytes) → less a b ≡ true → less b c ≡ true → less a c ≡ true
unfolding less
less_trans [] [] c h k = cc
less_trans [] (y ∷ b) [] h k = cc
less_trans [] (y ∷ b) (z ∷ c) h k = refl
less_trans (x ∷ a) [] c h k = cc
less_trans (x ∷ a) (y ∷ b) [] h k = cc
less_trans (x ∷ a) (y ∷ b) (z ∷ c) h k = ground (arith, less_trans a b c)

module _ {A : Type 0} (key : A → Bytes) where
  has-insert :
      (name : Bytes) (y : A) (es : List A)
      → has key name (insert key y es) ≡ (equal (key y) name || has key name es)
  unfolding has insert
  has-insert name y [] = refl
  has-insert name y (e ∷ es) = ground (arith, has-insert name y es)

  pub has-sort : (name : Bytes) (es : List A) → has key name (sort key es) ≡ has key name es
  unfolding has sort
  has-sort name [] = refl
  has-sort name (e ∷ es) = ground (arith, has-insert name e (sort key es), has-sort name es)

  is_first-less :
      (k m : Bytes) (es : List A)
      → less k m ≡ true
      → is_first key m es ≡ true
      → is_first key k es ≡ true
  unfolding is_first
  is_first-less k m [] h f = refl
  is_first-less k m (e ∷ es) h f = ground (arith, less_trans k m (key e), is_first-less k m es)

  is_first-insert :
      (k : Bytes) (y : A) (es : List A)
      → less k (key y) ≡ true
      → is_first key k es ≡ true
      → is_first key k (insert key y es) ≡ true
  unfolding is_first insert
  is_first-insert k y [] h f = ground arith
  is_first-insert k y (e ∷ es) h f = ground (arith, is_first-insert k y es h)

  ascending-insert :
      (y : A) (es : List A)
      → has key (key y) es ≡ false
      → ascending key es ≡ true
      → ascending key (insert key y es) ≡ true
  unfolding has ascending insert
  ascending-insert y [] n a = unfold is_first in refl
  ascending-insert y (e ∷ es) n a = elim (Bool-cases (less (key y) (key e))) [
    | inl before ↦
        rw before (unfold is_first in ground (arith, is_first-less (key y) (key e) es before))
    | inr after ↦ rw after (
        ground (
          arith,
          is_first-insert (key e) y es,
          less-linear (key y) (key e) after,
          ascending-insert y es,
        ))
  ]

  pub ascending-sort : (es : List A) → distinct key es ≡ true → ascending key (sort key es) ≡ true
  unfolding ascending sort distinct
  ascending-sort [] d = refl
  ascending-sort (e ∷ es) d =
      ascending-insert e (sort key es) (ground (arith, has-sort (key e) es))
        (ascending-sort es (ground arith))

  All-insert : (P : A → Type 0) (y : A) (es : List A) → P y → All P es → All P (insert key y es)
  unfolding insert
  All-insert P y [] p a = (p, tt)
  All-insert P y (e ∷ es) p a = elim (Bool-cases (less (key y) (key e))) [
    | inl before ↦ rw before (p, a)
    | inr after ↦ rw after (a.0, All-insert P y es p a.1)
  ]

  pub All-sort : (P : A → Type 0) (es : List A) → All P es → All P (sort key es)
  unfolding sort
  All-sort P [] a = tt
  All-sort P (e ∷ es) a = All-insert P e (sort key es) a.0 (All-sort P es a.1)

  distinct-insert :
      (y : A) (es : List A)
      → distinct key es ≡ true
      → has key (key y) es ≡ false
      → distinct key (insert key y es) ≡ true
  unfolding distinct insert has
  distinct-insert y [] d h = refl
  distinct-insert y (e ∷ es) d h = ground (
    arith,
    has-insert (key e) y es,
    distinct-insert y es,
    equal_iff (key y) (key e),
    equal_iff (key e) (key y),
  )

  pub distinct-sort : (es : List A) → distinct key es ≡ true → distinct key (sort key es) ≡ true
  unfolding distinct sort
  distinct-sort [] d = refl
  distinct-sort (e ∷ es) d =
      distinct-insert e (sort key es) (distinct-sort es (ground arith))
        (ground (arith, has-sort (key e) es))
