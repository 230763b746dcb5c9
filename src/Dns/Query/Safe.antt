-- ===== src/Dns/Query/Safe.antt =====
-- Nothing that a query asks for is an option of `dig`.
use router_docker.Prelude.{
  ℕ, ◌≡◌, refl, sym, inl, inr, Bool, true, false, not, ◌&&◌, ◌||◌, List, [], ◌∷◌, ◌++◌, all, ◌==◌,
  is_empty, All, ok, guard, guard-eq-ok, >>-eq-ok, guarded-eq-ok, empty_domain, invalid_domain,
  invalid_query_type, subst, arith, Bool-cases, Option-cases, and_left,
}
use router_docker.Text.{
  Bytes, codes, equal, contains, cut_suffix, trim_suffix, trim_space, split, cons_head,
}
use router_docker.Text.Laws.{equal_iff, cut_suffix-eq-some}
use router_docker.Dns.Query.{
  is_label_byte, is_dns_label, is_domain, query_types, all_types, query_type, fixed_args, pairs_for,
  lookup_args, query_args,
}

-- It starts with a letter, a digit or an underscore, as no option and no server does.
unfoldable pub starts_plain : Bytes → Bool
starts_plain [] = false
starts_plain (c ∷ s) = is_label_byte c

head_start :
    (c : ℕ) (ls : List Bytes) → all is_dns_label (cons_head c ls) ≡ true → is_label_byte c ≡ true
unfolding is_dns_label
head_start c [] h = and_left _ _ (and_left _ true h)
head_start c (l ∷ ls) h = and_left _ _ (and_left _ _ h)

-- the first byte of a text that splits into labels
labels_start : (s : Bytes) → all is_dns_label (split b'.' s) ≡ true → starts_plain s ≡ true
unfolding split starts_plain
labels_start [] h = unfold is_dns_label in cc
labels_start (c ∷ s) h = elim (Bool-cases (c == b'.')) [
  | inl dot ↦ absurd (no_label (all is_dns_label (split b'.' s)) (rw dot at h))
  | inr other ↦ head_start c (split b'.' s) (rw other at h)
]
  where
    no_label : (b : Bool) → (is_dns_label [] && b) ≡ true → ⊥
    no_label b h = unfold is_dns_label in cc

starts_plain-append : (s t : Bytes) → starts_plain s ≡ true → starts_plain (s ++ t) ≡ true
unfolding starts_plain
starts_plain-append [] t h = cc
starts_plain-append (c ∷ s) t h = h

is_domain-starts_plain : (s : Bytes) → is_domain s ≡ true → starts_plain s ≡ true
unfolding is_domain trim_suffix
is_domain-starts_plain s h = elim (Option-cases (cut_suffix s (codes "."))) [
  | inl e ↦ labels_start s (rw e at h)
  | inr (r, e) ↦
      subst (λ x. starts_plain x ≡ true) (sym (cut_suffix-eq-some s (codes ".") r e))
        (starts_plain-append r (codes ".") (labels_start r (rw e at h)))
]

contains-All :
    (P : Bytes → Type 0) (xs : List Bytes) (x : Bytes) → All P xs → contains xs x ≡ true → P x
unfolding contains
contains-All P [] x a h = absurd (cc)
contains-All P (y ∷ ys) x a h = elim (Bool-cases (equal y x)) [
  | inl same ↦ subst P ((equal_iff y x).0 same) a.0
  | inr other ↦ contains-All P ys x a.1 (ground (arith, h, other))
]

abbrev Plain : Bytes → Type 0
Plain a = starts_plain a ≡ true

pairs_for-All :
    (domain : Bytes) (ts : List Bytes)
    → Plain domain
    → All Plain ts
    → All Plain (pairs_for domain ts)
pairs_for-All domain [] d a = tt
pairs_for-All domain (t ∷ ts) d a = (d, (a.0, pairs_for-All domain ts d a.1))

types-Plain : All Plain query_types × All Plain all_types
unfolding starts_plain
types-Plain = (
  (refl, (refl, (refl, (refl, (refl, (refl, (refl, (refl, (refl, (refl, tt)))))))))),
  (refl, (refl, (refl, (refl, (refl, (refl, (refl, (refl, tt)))))))),
)

lookup_args-All :
    (domain t : Bytes)
    → Plain domain
    → (equal t (codes "ALL") || contains query_types t) ≡ true
    → All Plain (lookup_args domain t)
unfolding lookup_args
lookup_args-All domain t d h = elim (Bool-cases (equal t (codes "ALL"))) [
  | inl every ↦ rw every (pairs_for-All domain all_types d types-Plain.1)
  | inr one ↦
      let known : contains query_types t ≡ true = rw one at h in
      rw one (d, (contains-All Plain query_types t types-Plain.0 known, tt))
]

-- The arguments of an accepted query are the fixed ones, which name the server, and behind them
-- only arguments that start with a letter, a digit or an underscore: none of them can be read as
-- an option, as `+` or `-` something, or as another server, `@` something.
pub query_args-safe :
    (domain record_type : Bytes) (args : List Bytes)
    → query_args domain record_type ≡ ok args
    → (rest : List Bytes) × (args ≡ fixed_args ++ rest) × All (λ a. starts_plain a ≡ true) rest
unfolding query_args
query_args-safe domain record_type args h =
    let d : Bytes = trim_space domain in
    let t : Bytes = query_type record_type in
    let (some_domain, h1) = >>-eq-ok (guard (not (is_empty d)) empty_domain) _ h in
    let (valid, h2) = >>-eq-ok (guard (is_domain d) invalid_domain) _ h1 in
    let (known, made) =
      guarded-eq-ok (equal t (codes "ALL") || contains query_types t) invalid_query_type
        (fixed_args ++ lookup_args d t) h2 in
    (
      lookup_args d t,
      sym made,
      lookup_args-All d t
          (is_domain-starts_plain d (guard-eq-ok (is_domain d) invalid_domain valid)) known,
    )
