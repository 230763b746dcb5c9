-- ===== src/TinyauthUsers/Invariant.antt =====
-- The stored users: distinct names, each fit for the shell line.
use mathlib.Core.Option.{some-injective}
use router_docker.Prelude.{
  ◌≡◌, sym, ◌∙◌, inl, inr, Bool, ◌||◌, Option, none, some, List, [], ◌∷◌, ◌++◌, is_empty, ok, arith,
  All-append, Bool-cases, Result-cases, Result-split, subst,
}
use router_docker.Text.{Bytes}
use router_docker.TinyauthUsers.{
  User, Backend, validate_name, has_user, with_hash, without_user, load_from, load, hashed, save,
  add_user, set_password, delete_user,
}
use router_docker.TinyauthUsers.Unique.{
  IsValid, unique_names-append, unique_names-without_user, All-without_user, with_hash-IsValid,
}

abbrev pub held : {C : Type 0} → Backend C → Option C → Option (List User)
held b none = some []
held b (some content) = b.unmarshal content

-- Whatever users the file decodes to, they are valid.
abbrev pub HoldsValid : {C : Type 0} → Backend C → Option C → Type 0
HoldsValid b s = (us : List User) → held b s ≡ some us → IsValid us

-- what is documented of encoding/json
pub record IsBackend {C : Type 0} (b : Backend C) : Type 0 where
  pub unmarshal-marshal : (us : List User) → b.unmarshal (b.marshal us) ≡ some us

module _ {C : Type 0} (b : Backend C) (hb : IsBackend b) where
  load_from-held : (s : Option C) (us : List User) → load_from b s ≡ ok us → held b s ≡ some us
  unfolding load_from
  load_from-held none us h = ground arith
  load_from-held (some content) us h = ground arith

  saved-HoldsValid :
      (us : List User) (s : Option C) → HoldsValid b s → IsValid us → HoldsValid b (save b us s).1
  unfolding save
  saved-HoldsValid us s hs valid = elim (Bool-cases b.write_ok) [
    | inr e ↦ simp e hs
    | inl e ↦
        simp e (λ r h. subst IsValid (some-injective _ _ (sym (hb.unmarshal-marshal us) ∙ h)) valid)
  ]

  add_user-HoldsValid :
      (name plaintext : Bytes) (s : Option C)
      → HoldsValid b s
      → HoldsValid b (add_user b name plaintext s).1
  unfolding add_user load
  add_user-HoldsValid name plaintext s hs =
      elim (Bool-cases (is_empty name || is_empty plaintext)) [
        | inl e ↦ simp e hs
        | inr e ↦ elim (Result-cases (validate_name name)) [
          | inr (x, c) ↦ simp (e, c) hs
          | inl c ↦ elim (Result-split (load_from b s)) [
            | inr (x, l) ↦ simp (e, c, l) hs
            | inl (us, l) ↦ elim (Bool-cases (has_user name us)) [
              | inl taken ↦ simp (e, c, l, taken) hs
              | inr free ↦ elim (Result-split (hashed b plaintext)) [
                | inr (x, k) ↦ simp (e, c, l, free, k) hs
                | inl (hash, k) ↦
                    let old = hs us (load_from-held s us l) in
                    let new : User = record { name = name; password_hash = hash } in
                    simp (e, c, l, free, k)
                      (saved-HoldsValid (us ++ new ∷ []) s hs (record {
                        checked =
                            All-append (λ u. validate_name u.name ≡ ok tt) us (new ∷ []) old.checked
                              (c, tt);
                        distinct = unique_names-append us new old.distinct free;
                      }))
              ]
            ]
          ]
        ]
      ]

  set_password-HoldsValid :
      (name plaintext : Bytes) (s : Option C)
      → HoldsValid b s
      → HoldsValid b (set_password b name plaintext s).1
  unfolding set_password load
  set_password-HoldsValid name plaintext s hs = elim (Bool-cases (is_empty plaintext)) [
    | inl e ↦ simp e hs
    | inr e ↦ elim (Result-split (load_from b s)) [
      | inr (x, l) ↦ simp (e, l) hs
      | inl (us, l) ↦ elim (Bool-cases (has_user name us)) [
        | inr missing ↦ simp (e, l, missing) hs
        | inl there ↦ elim (Result-split (hashed b plaintext)) [
          | inr (x, k) ↦ simp (e, l, there, k) hs
          | inl (hash, k) ↦
              simp (e, l, there, k)
                (saved-HoldsValid (with_hash name hash us) s hs
                  (with_hash-IsValid name hash us (hs us (load_from-held s us l))))
        ]
      ]
    ]
  ]

  delete_user-HoldsValid :
      (name : Bytes) (s : Option C) → HoldsValid b s → HoldsValid b (delete_user b name s).1
  unfolding delete_user load
  delete_user-HoldsValid name s hs = elim (Result-split (load_from b s)) [
    | inr (x, l) ↦ simp l hs
    | inl (us, l) ↦ elim (Bool-cases (has_user name us)) [
      | inr missing ↦ simp (l, missing) hs
      | inl there ↦
          let old = hs us (load_from-held s us l) in
          simp (l, there)
            (saved-HoldsValid (without_user name us) s hs (record {
              checked = All-without_user (λ u. validate_name u.name ≡ ok tt) name us old.checked;
              distinct = unique_names-without_user name us old.distinct;
            }))
    ]
  ]

-- The file after some calls of the operations that write it. What the system answers, to reads and
-- to writes, may change from one call to the next.
pub data UserCalls {C : Type 0} (b : Backend C) (s : Option C) : Option C → Type 0 where
  begin : UserCalls b s s
  added :
      {t : Option C} (r w : Bool) (name plaintext : Bytes)
      → UserCalls b s t
      → UserCalls b s (add_user (record b { read_ok = r; write_ok = w }) name plaintext t).1
  changed :
      {t : Option C} (r w : Bool) (name plaintext : Bytes)
      → UserCalls b s t
      → UserCalls b s (set_password (record b { read_ok = r; write_ok = w }) name plaintext t).1
  deleted :
      {t : Option C} (r w : Bool) (name : Bytes)
      → UserCalls b s t
      → UserCalls b s (delete_user (record b { read_ok = r; write_ok = w }) name t).1

-- Starting from a store whose users are valid (each name passes `validateName`, and no two users
-- share one), or from no file, every sequence of calls of `AddUser`, `SetPassword` and
-- `DeleteUser`, whatever fails on the way, leaves a store whose users are valid; where
-- encoding/json reads back what it writes.
pub UserCalls-HoldsValid :
    {C : Type 0} {b : Backend C} {s t : Option C}
    → IsBackend b
    → HoldsValid b s
    → UserCalls b s t
    → HoldsValid b t
UserCalls-HoldsValid hb hs begin = hs
UserCalls-HoldsValid {b} hb hs (added {t} r w name plaintext c) =
    add_user-HoldsValid (record b { read_ok = r; write_ok = w })
      (record { unmarshal-marshal = hb.unmarshal-marshal }) name plaintext t
      (UserCalls-HoldsValid hb hs c)
UserCalls-HoldsValid {b} hb hs (changed {t} r w name plaintext c) =
    set_password-HoldsValid (record b { read_ok = r; write_ok = w })
      (record { unmarshal-marshal = hb.unmarshal-marshal }) name plaintext t
      (UserCalls-HoldsValid hb hs c)
UserCalls-HoldsValid {b} hb hs (deleted {t} r w name c) =
    delete_user-HoldsValid (record b { read_ok = r; write_ok = w })
      (record { unmarshal-marshal = hb.unmarshal-marshal }) name t (UserCalls-HoldsValid hb hs c)
