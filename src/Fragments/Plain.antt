-- ===== src/Fragments/Plain.antt =====
-- Raw edits and deletions of a fragment, by their outcome.
use router_docker.Prelude.{
  ◌≡◌, refl, ap, ◌∙◌, true, false, Error, ◌⊎◌, inl, inr, Result, ok, err, not_found, io,
  invalid_caddyfile, reload_failed, Bool-cases, Result-cases, IsPlain, IsPlain-not_reload,
}
use router_docker.Text.{Bytes}
use router_docker.Fragments.Files.{Dir, put, remove}
use router_docker.Fragments.Laws.{
  IsReliable, Saved, Untouched, refused, after_write, write_and_validate-cases,
}
use router_docker.Fragments.{
  System, exists_file, remove_file, write_and_validate, reload_after_write, update_raw, adapt_rest,
  delete,
}

module _ (sys : System) (check_name : Bytes → Result (Unit {0})) where
  -- A raw edit saves the text as it is, or leaves every file as it was.
  pub update_raw-cases :
      (name raw : Bytes) (d : Dir)
      → IsReliable sys
      → IsPlain (check_name name)
      → Saved (update_raw sys check_name name raw d) (put name raw d)
        ⊎ Untouched (update_raw sys check_name name raw d) d
  unfolding update_raw
  update_raw-cases name raw d r plain = elim (Result-cases (check_name name)) [
    | inr (x, c) ↦
        simp c (inr (refused x d (λ p. IsPlain-not_reload (check_name name) plain (c ∙ ap err p))))
    | inl c ↦ elim (Bool-cases (exists_file sys name d)) [
      | inr missing ↦ simp (c, missing) (inr (refused not_found d (λ p. cc)))
      | inl there ↦
          simp (c, there)
            (after_write sys (write_and_validate sys name raw d) (put name raw d) d
              (write_and_validate-cases sys name raw d r))
    ]
  ]

  -- The file is gone and no other; what Caddy said of the rest decides the answer.
  abbrev pub Deleted : Result (Unit {0}) × Dir → Dir → Type 0
  Deleted r d =
      (r.1 ≡ d)
      × (((r.0 ≡ ok tt) × (sys.adapt_ok d ≡ true) × (sys.reload_ok d ≡ true))
          ⊎ ((r.0 ≡ err invalid_caddyfile) × (sys.adapt_ok d ≡ false))
          ⊎ ((r.0 ≡ err reload_failed) × (sys.adapt_ok d ≡ true) × (sys.reload_ok d ≡ false)))

  -- The call stopped before the removal, or the removal failed: no file is another.
  abbrev pub NotDeleted : Bytes → Result (Unit {0}) × Dir → Dir → Type 0
  NotDeleted name r d =
      (r.1 ≡ d)
      × (((x : Error) × (r.0 ≡ err x) × (check_name name ≡ err x))
          ⊎ ((r.0 ≡ err not_found) × (exists_file sys name d ≡ false))
          ⊎ ((r.0 ≡ err io) × (sys.remove_ok name ≡ false)))

  -- A deletion removes the file, even when Caddy refuses what is left; or it leaves the directory
  -- as it was.
  pub delete-cases :
      (name : Bytes) (d : Dir)
      → Deleted (delete sys check_name name d) (remove name d)
        ⊎ NotDeleted name (delete sys check_name name d) d
  unfolding delete remove_file adapt_rest reload_after_write
  delete-cases name d = elim (Result-cases (check_name name)) [
    | inr (x, c) ↦ simp c (inr (refl, inl (x, refl, refl)))
    | inl c ↦ elim (Bool-cases (exists_file sys name d)) [
      | inr missing ↦ simp (c, missing) (inr (refl, inr (inl (refl, refl))))
      | inl there ↦ elim (Bool-cases (sys.remove_ok name)) [
        | inr kept ↦ simp (c, there, kept) (inr (refl, inr (inr (refl, refl))))
        | inl gone ↦ elim (Bool-cases (sys.adapt_ok (remove name d))) [
          | inr bad ↦ simp (c, there, gone, bad) (inl (refl, inr (inl (refl, refl))))
          | inl good ↦ elim (Bool-cases (sys.reload_ok (remove name d))) [
            | inr failed ↦
                simp (c, there, gone, good, failed) (inl (refl, inr (inr (refl, refl, refl))))
            | inl reloaded ↦
                simp (c, there, gone, good, reloaded) (inl (refl, inl (refl, refl, refl)))
          ]
        ]
      ]
    ]
  ]
