-- ===== src/Fragments/Rename.antt =====
-- A rename never loses a fragment, whatever the system and Caddy answer on the way.
use router_docker.Prelude.Exec.{continue}
use router_docker.Prelude.{
  ◌≡◌, refl, ◌∙◌, ◌≢◌, ◌⊎◌, inl, inr, false, Option, none, some, arith, Result, ok, err, Bool-cases,
  Result-cases,
}
use router_docker.Text.{Bytes, equal}
use router_docker.Text.Laws.{equal_iff, equal_refl, equal-eq-false}
use router_docker.Fragments.Files.{Dir, lookup, put, lookup-put, lookup-remove}
use router_docker.Fragments.{
  System, store_torn, exists_file, write_file, remove_file, restore, validate_tree, previous_of,
  write_and_validate, reload_after_write, update_structured,
}

module _ (sys : System) where
  module _ (name j : Bytes) (other : equal name j ≡ false) where
    store_torn-other :
        (o : Option Bytes) (d : Dir) → lookup j (store_torn sys name o d) ≡ lookup j d
    store_torn-other none d = ground (arith, lookup-remove name j d)
    store_torn-other (some c) d = ground (arith, lookup-put name j c d)

    write_file-other : (c : Bytes) (d : Dir) → lookup j (write_file sys name c d).1 ≡ lookup j d
    unfolding write_file
    write_file-other c d =
        ground (arith, lookup-put name j c d, store_torn-other (sys.torn name c) d)

    pub remove_file-other : (d : Dir) → lookup j (remove_file sys name d).1 ≡ lookup j d
    unfolding remove_file
    remove_file-other d = ground (arith, lookup-remove name j d)

    restore-other : (o : Option Bytes) (d : Dir) → lookup j (restore sys name o d) ≡ lookup j d
    unfolding restore
    restore-other none d = remove_file-other d
    restore-other (some p) d = write_file-other p d

    validate_tree-other :
        (o : Option Bytes) (d : Dir) → lookup j (validate_tree sys name o d).1 ≡ lookup j d
    unfolding validate_tree
    validate_tree-other o d = ground (arith, restore-other o d)

    after_file :
        (o : Option Bytes) (w : Result (Unit {0}) × Dir) (d : Dir)
        → lookup j w.1 ≡ lookup j d
        → lookup j (continue w (λ _. validate_tree sys name o)).1 ≡ lookup j d
    after_file o (ok tt, s) d h = validate_tree-other o s ∙ h
    after_file o (err x, s) d h = h

    -- Writing one fragment leaves every other file as it was, whatever fails.
    pub write_and_validate-other :
        (c : Bytes) (d : Dir) → lookup j (write_and_validate sys name c d).1 ≡ lookup j d
    unfolding write_and_validate
    write_and_validate-other c d = elim (Bool-cases sys.mkdir_ok) [
      | inr e ↦ simp e
      | inl e ↦
          simp e
            (after_file (previous_of sys name d) (write_file sys name c d) d (write_file-other c d))
    ]

  write_and_validate-ok :
      (name c : Bytes) (d : Dir)
      → (write_and_validate sys name c d).0 ≡ ok tt
      → (write_and_validate sys name c d).1 ≡ put name c d
  unfolding write_and_validate write_file validate_tree
  write_and_validate-ok name c d h = ground arith

  -- the removal of the old file, and the reload, behind a write
  finish_rename :
      (old name c : Bytes) (w : Result (Unit {0}) × Dir) (d : Dir)
      → equal name old ≡ false
      → lookup old w.1 ≡ lookup old d
      → (w.0 ≡ ok tt → w.1 ≡ put name c d)
      → (let r : Dir =
            (continue w
              (λ _ s. continue (remove_file sys old s) (λ _. reload_after_write sys))).1 in
          (lookup old r ≡ lookup old d) ⊎ (lookup name r ≡ some c))
  unfolding reload_after_write remove_file
  finish_rename old name c (err x, s) d other kept written = inl kept
  finish_rename old name c (ok tt, s) d other kept written = elim (Bool-cases (sys.remove_ok old)) [
    | inr e ↦ inl (ground arith)
    | inl e ↦ inr (
        ground (
          arith,
          written refl,
          lookup-remove old name s,
          lookup-put name name c d,
          equal_refl name,
          equal_iff name old,
          equal_iff old name,
        ))
  ]

  module _ {E : Type 0} (name_of : E → Bytes) (check : E → Result (Unit {0}))
      (render : E → Bytes) where
    -- A rename ends with the old fragment still there, unchanged, or with the new one in full,
    -- whatever the system and Caddy answer.
    pub rename_safe :
        (old : Bytes) (e : E) (d : Dir)
        → name_of e ≢ old
        → (let r : Dir = (update_structured sys name_of check render old e d).1 in
            (lookup old r ≡ lookup old d) ⊎ (lookup (name_of e) r ≡ some (render e)))
    unfolding update_structured
    rename_safe old e d ne =
        let other = equal-eq-false (name_of e) old ne in
        elim (Result-cases (check e)) [
          | inr (x, c) ↦ simp c (inl refl)
          | inl c ↦ elim (Bool-cases (exists_file sys old d)) [
            | inr missing ↦ simp (c, missing) (inl refl)
            | inl there ↦ elim (Bool-cases (exists_file sys (name_of e) d)) [
              | inl taken ↦ simp (c, there, other, taken) (inl refl)
              | inr free ↦
                  simp (c, there, other, free)
                    (finish_rename old (name_of e) (render e)
                      (write_and_validate sys (name_of e) (render e) d) d other
                      (write_and_validate-other (name_of e) old other (render e) d)
                      (write_and_validate-ok (name_of e) (render e) d))
            ]
          ]
        ]
