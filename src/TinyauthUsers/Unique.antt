-- ===== src/TinyauthUsers/Unique.antt =====
-- Lists of users with distinct names.
use router_docker.Prelude.{
  ◌≡◌, refl, inl, inr, Bool, true, false, not, ◌&&◌, ◌||◌, List, [], ◌∷◌, ◌++◌, ok, arith, All,
  Bool-cases, and_left, and_right,
}
use router_docker.Text.{Bytes, equal}
use router_docker.Text.Laws.{equal_iff}
use router_docker.TinyauthUsers.{User, validate_name, has_user, with_hash, without_user}

-- no two users share a name
unfoldable pub unique_names : List User → Bool
unique_names [] = true
unique_names (u ∷ us) = not (has_user u.name us) && unique_names us

-- Every name passes `validateName`, and the names are distinct.
pub record IsValid (us : List User) : Type 0 where
  pub checked : All (λ u. validate_name u.name ≡ ok tt) us
  pub distinct : unique_names us ≡ true

pub has_user-append :
    (n : Bytes) (us : List User) (u : User)
    → has_user n (us ++ u ∷ []) ≡ (has_user n us || equal u.name n)
unfolding has_user
has_user-append n [] u = ground arith
has_user-append n (v ∷ us) u = ground (arith, has_user-append n us u)

pub unique_names-append :
    (us : List User) (u : User)
    → unique_names us ≡ true
    → has_user u.name us ≡ false
    → unique_names (us ++ u ∷ []) ≡ true
unfolding unique_names has_user
unique_names-append [] u q h = refl
unique_names-append (v ∷ us) u q h = ground (
  arith,
  has_user-append v.name us u,
  unique_names-append us u,
  equal_iff u.name v.name,
  equal_iff v.name u.name,
)

pub has_user-without_user :
    (m n : Bytes) (us : List User) → has_user n us ≡ false → has_user n (without_user m us) ≡ false
unfolding has_user without_user
has_user-without_user m n [] h = refl
has_user-without_user m n (u ∷ us) h = ground (arith, has_user-without_user m n us)

pub unique_names-without_user :
    (m : Bytes) (us : List User) → unique_names us ≡ true → unique_names (without_user m us) ≡ true
unfolding unique_names without_user
unique_names-without_user m [] q = refl
unique_names-without_user m (u ∷ us) q =
    ground (arith, has_user-without_user m u.name us, unique_names-without_user m us)

pub All-without_user :
    (P : User → Type 0) (m : Bytes) (us : List User) → All P us → All P (without_user m us)
unfolding without_user
All-without_user P m [] a = tt
All-without_user P m (u ∷ us) a = elim (Bool-cases (equal u.name m)) [
  | inl same ↦ rw same (All-without_user P m us a.1)
  | inr other ↦ rw other (a.0, All-without_user P m us a.1)
]

pub has_user-with_hash :
    (m hash n : Bytes) (us : List User) → has_user n (with_hash m hash us) ≡ has_user n us
unfolding has_user with_hash
has_user-with_hash m hash n [] = refl
has_user-with_hash m hash n (u ∷ us) = ground (arith, has_user-with_hash m hash n us)

pub with_hash-IsValid :
    (m hash : Bytes) (us : List User) → IsValid us → IsValid (with_hash m hash us)
unfolding with_hash unique_names
with_hash-IsValid m hash [] v = v
with_hash-IsValid m hash (u ∷ us) v = elim (Bool-cases (equal u.name m)) [
  | inl same ↦ rw same (record { checked = v.checked; distinct = v.distinct })
  | inr other ↦
      let tail = with_hash-IsValid m hash us (record {
        checked = v.checked.1;
        distinct = and_right (not (has_user u.name us)) _ v.distinct;
      }) in
      let first = and_left (not (has_user u.name us)) (unique_names us) v.distinct in
      rw other (record {
        checked = (v.checked.0, tail.checked);
        distinct = rw (has_user-with_hash m hash u.name us) (rw first tail.distinct);
      })
]
