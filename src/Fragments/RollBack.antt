-- ===== src/Fragments/RollBack.antt =====
-- A fragment that was just created can be taken back.
use router_docker.Prelude.{
  ◌≡◌, ◌≢◌, refl, ap, ◌∙◌, ◌⊎◌, inl, inr, true, none, some, Result, ok, err, already_exists,
  reload_failed, arith, Result-cases, Option-cases,
}
use router_docker.Text.{Bytes, is_some}
use router_docker.Text.Laws.{equal_iff, equal_refl}
use router_docker.Fragments.Files.{Dir, SameFiles, lookup, put, remove, lookup-put, lookup-remove}
use router_docker.Fragments.Laws.{IsReliable, Saved, Untouched, refused, create-cases}
use router_docker.Fragments.{
  System, exists_file, remove_file, adapt_rest, reload_after_write, create, delete,
}

module _ (sys : System) (r : IsReliable sys) (stats : (n : Bytes) → sys.stat_ok n ≡ true) where
  exists_file-lookup : (name : Bytes) (d : Dir) → exists_file sys name d ≡ is_some (lookup name d)
  unfolding exists_file
  exists_file-lookup name d = simp (stats name) refl

  module _ {E : Type 0} (name_of : E → Bytes) (check : E → Result (Unit {0}))
      (render : E → Bytes) where
    create-taken :
        (e : E) (d : Dir) (content : Bytes)
        → lookup (name_of e) d ≡ some content
        → check e ≢ err reload_failed
        → Untouched (create sys name_of check render e d) d
    unfolding create
    create-taken e d content there plain = elim (Result-cases (check e)) [
      | inr (x, c) ↦ simp c (refused x d (λ p. plain (c ∙ ap err p)))
      | inl c ↦
          let taken : exists_file sys (name_of e) d ≡ true =
            exists_file-lookup (name_of e) d ∙ ap is_some there in
          simp (c, taken) (refused already_exists d (λ p. cc))
    ]

    -- A fragment that was created was not there before.
    pub create-new :
        (e : E) (d : Dir)
        → check e ≢ err reload_failed
        → (Saved (create sys name_of check render e d) (put (name_of e) (render e) d)
            × (lookup (name_of e) d ≡ none))
          ⊎ Untouched (create sys name_of check render e d) d
    create-new e d plain = elim (Option-cases (lookup (name_of e) d)) [
      | inr (content, there) ↦ inr (create-taken e d content there plain)
      | inl free ↦ elim (create-cases sys name_of check render e d r plain) [
        | inl saved ↦ inl (saved, free)
        | inr kept ↦ inr kept
      ]
    ]

  remove-put :
      (name content : Bytes) (d : Dir)
      → lookup name d ≡ none
      → SameFiles (remove name (put name content d)) d
  remove-put name content d free j = ground (
    arith,
    lookup-remove name j (put name content d),
    lookup-put name j content d,
    equal_iff name j,
    free,
  )

  -- Deleting it leaves the files as they were before, whatever Caddy says of them.
  pub delete-created :
      (check_name : Bytes → Result (Unit {0})) (name content : Bytes) (d : Dir)
      → check_name name ≡ ok tt
      → lookup name d ≡ none
      → SameFiles (delete sys check_name name (put name content d)).1 d
  unfolding delete remove_file adapt_rest reload_after_write
  delete-created check_name name content d c free =
      let next : Dir = put name content d in
      let written : lookup name next ≡ some content =
        rw (lookup-put name name content d, equal_refl name) refl in
      let there : exists_file sys name next ≡ true =
        exists_file-lookup name next ∙ ap is_some written in
      let left : (delete sys check_name name next).1 ≡ remove name next =
        simp (c, there, r.removes name) (ground arith) in
      λ j. ap (lookup j) left ∙ remove-put name content d free j
