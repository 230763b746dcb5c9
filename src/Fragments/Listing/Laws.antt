-- ===== src/Fragments/Listing/Laws.antt =====
-- What a listing finds under a name.
use mathlib.Core.Option
use mathlib.Core.Option.{some-injective}
use router_docker.Prelude.{
  ◌≡◌, refl, sym, ap, ◌∙◌, ◌⊎◌, inl, inr, true, false, Option, none, some, List, [], ◌∷◌,
  if◌then◌else◌, All, subst, arith, Bool-cases,
}
use router_docker.Text.{Bytes, equal, contains}
use router_docker.Text.Laws.{equal_iff}
use router_docker.Keyed.{has, find}
use router_docker.Keyed.Order.{sort, has-sort, All-sort}
use router_docker.Fragments.{System}
use router_docker.Fragments.Files.{Dir, lookup}
use router_docker.Fragments.Listing
use router_docker.Fragments.Listing.{Info, infos, read_info, cons_info}

module _ (sys : System) {E : Type 0} (parse : Bytes → Bytes → Option E) (d : Dir) where
  -- an entry of the listing is what its file holds
  abbrev pub IsRead : Info E → Type 0
  IsRead i = read_info sys parse i.name d ≡ some i

  read_info-name : (n : Bytes) (i : Info E) → read_info sys parse n d ≡ some i → i.name ≡ n
  read_info-name n i h = name_case (Bool-cases (sys.read_ok n)) (lookup n d) h
    where
      name_case :
          (sys.read_ok n ≡ true) ⊎ (sys.read_ok n ≡ false)
          → (o : Option Bytes)
          → (if sys.read_ok n
              then Option.map (λ raw. record { name = n; raw = raw; structured = parse n raw }) o
              else none)
            ≡ some i
          → i.name ≡ n
      name_case (inl y) none k = absurd (ground (arith, y, k))
      name_case (inl y) (some raw) k = ap Listing.name_of (sym (some-injective _ _ (rw y at k)))
      name_case (inr y) o k = absurd (ground (arith, y, k))

  cons_info-IsRead :
      (n : Bytes) (o : Option (Info E)) (is : List (Info E))
      → read_info sys parse n d ≡ o
      → All IsRead is
      → All IsRead (cons_info sys parse o is)
  cons_info-IsRead n none is e a = a
  cons_info-IsRead n (some i) is e a =
      (subst (λ m. read_info sys parse m d ≡ some i) (sym (read_info-name n i e)) e, a)

  infos-IsRead : (ns : List Bytes) → All IsRead (infos sys parse ns d)
  unfolding infos
  infos-IsRead [] = tt
  infos-IsRead (n ∷ ns) = cons_info-IsRead n _ (infos sys parse ns d) refl (infos-IsRead ns)

  has-cons_info :
      (n : Bytes) (o : Option (Info E)) (is : List (Info E))
      → has Listing.name_of n is ≡ true
      → has Listing.name_of n (cons_info sys parse o is) ≡ true
  unfolding has
  has-cons_info n none is h = h
  has-cons_info n (some i) is h = ground (arith, h)

  -- a file that can be read is listed
  has-infos :
      (n : Bytes) (i : Info E) (ns : List Bytes)
      → read_info sys parse n d ≡ some i
      → contains ns n ≡ true
      → has Listing.name_of n (infos sys parse ns d) ≡ true
  unfolding infos contains has
  has-infos n i [] e c = cc
  has-infos n i (m ∷ ns) e c = elim (Bool-cases (equal m n)) [
    | inr other ↦
        has-cons_info n (read_info sys parse m d) (infos sys parse ns d)
          (has-infos n i ns e (ground (arith, c, other)))
    | inl same ↦
        let named : equal i.name n ≡ true = (equal_iff i.name n).1 (read_info-name n i e) in
        let first : has Listing.name_of n (cons_info sys parse (some i) (infos sys parse ns d))
            ≡ true =
          ground (arith, named) in
        subst (λ o. has Listing.name_of n (cons_info sys parse o (infos sys parse ns d)) ≡ true)
          (sym e ∙ ap (λ k. read_info sys parse k d) (sym ((equal_iff m n).0 same))) first
  ]

  find-IsRead :
      (n : Bytes) (is : List (Info E))
      → All IsRead is
      → has Listing.name_of n is ≡ true
      → find Listing.name_of n is ≡ read_info sys parse n d
  unfolding has find
  find-IsRead n [] a h = cc
  find-IsRead n (i ∷ is) a h = elim (Bool-cases (equal i.name n)) [
    | inl same ↦ rw same (sym a.0 ∙ ap (λ m. read_info sys parse m d) ((equal_iff i.name n).0 same))
    | inr other ↦ rw other (find-IsRead n is a.1 (ground (arith, other, h)))
  ]

  pub find-sorted :
      (n : Bytes) (i : Info E) (ns : List Bytes)
      → read_info sys parse n d ≡ some i
      → contains ns n ≡ true
      → find Listing.name_of n (sort Listing.name_of (infos sys parse ns d)) ≡ some i
  find-sorted n i ns e c =
      find-IsRead n (sort Listing.name_of (infos sys parse ns d))
        (All-sort Listing.name_of IsRead (infos sys parse ns d) (infos-IsRead ns))
        (has-sort Listing.name_of n (infos sys parse ns d) ∙ has-infos n i ns e c)
      ∙ e
