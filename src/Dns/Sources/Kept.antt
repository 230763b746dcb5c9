-- ===== src/Dns/Sources/Kept.antt =====
-- What storing a custom source leaves alone.
use router_docker.Prelude.Exec.{Exec, continue, require}
use router_docker.Prelude.{
  ◌≡◌, ◌≢◌, refl, sym, ◌∙◌, ◌⊎◌, inl, inr, Bool, true, false, not, List, Error, Result, ok, err,
  guard, for_each, validation, builtin_immutable, already_exists, not_found, Bool-cases, >>-eq-ok,
  guard-eq-ok, not-eq-true,
}
use router_docker.Text.{Bytes, equal}
use router_docker.Text.Laws.{equal_iff, equal-eq-false}
use router_docker.Text.Lines.{lacks}
use router_docker.DevProxy.Validate.{is_label}
use router_docker.Fragments.Files.{Dir, lookup, put, lookup-put}
use router_docker.Dns.System.{System, exists_file, write_atomic}
use router_docker.Dns.Hosts.{
  builtin_name, validate_source_name, validate_hostname, render_hosts_file, dedupe, lower_hosts,
}
use router_docker.Dns.Sources.{
  custom_path, builtin_path, write_source, create_source, update_source,
}
use router_docker.Dns.Sources.Path.{
  path_of, custom_path-is_label, is_label-lacks, path_of_injective,
}

-- No file changes but the one of a plain name that is not reserved, and that of the built-in source
-- does not.
abbrev pub LeavesOthers : Bytes → Dir → Dir → Type 0
LeavesOthers name d e =
    (lookup builtin_path e ≡ lookup builtin_path d)
    × ((p : Bytes)
        → (lookup p e ≡ lookup p d)
          ⊎ ((p ≡ path_of name) × (name ≢ builtin_name) × (lacks b'/' name ≡ true)))

unchanged : (name : Bytes) (d : Dir) → LeavesOthers name d d
unchanged name d = (refl, λ p. inl refl)

-- a check before the rest of a call
checked_first :
    (name : Bytes) (d : Dir) (r : Result (Unit {0})) (m : Exec Dir (Unit {0}))
    → (r ≡ ok tt → LeavesOthers name d (m d).1)
    → LeavesOthers name d (continue (r, d) (λ _. m)).1
checked_first name d (ok tt) m k = k refl
checked_first name d (err x) m k = unchanged name d

required_first :
    (name : Bytes) (d : Dir) (b : Bool) (x : Error) (m : Exec Dir (Unit {0}))
    → LeavesOthers name d (m d).1
    → LeavesOthers name d (continue (require b x d) (λ _. m)).1
required_first name d true x m k = k
required_first name d false x m k = unchanged name d

accepted_name :
    (name : Bytes)
    → validate_source_name name ≡ ok tt
    → (equal name builtin_name ≡ false) × (is_label name ≡ true)
unfolding validate_source_name
accepted_name name h =
    let (free, label) = >>-eq-ok (guard (not (equal name builtin_name)) builtin_immutable) _ h in
    (
      not-eq-true _ (guard-eq-ok (not (equal name builtin_name)) builtin_immutable free),
      guard-eq-ok (is_label name) validation label,
    )

different : (name : Bytes) → equal name builtin_name ≡ false → name ≢ builtin_name
different name f e = cc (f, (equal_iff name builtin_name).1 e)

builtin_label : is_label builtin_name ≡ true
unfolding is_label
builtin_label = refl

other_path :
    (name : Bytes)
    → validate_source_name name ≡ ok tt
    → equal (custom_path name) builtin_path ≡ false
unfolding builtin_path
other_path name h =
    let (free, label) = accepted_name name h in
    equal-eq-false (custom_path name) (custom_path builtin_name) (λ e. different name free (
      path_of_injective name builtin_name (
        sym (custom_path-is_label name label)
        ∙ (e ∙ custom_path-is_label builtin_name builtin_label))))

put-LeavesOthers :
    (name content : Bytes) (d : Dir)
    → validate_source_name name ≡ ok tt
    → LeavesOthers name d (put (custom_path name) content d)
put-LeavesOthers name content d h =
    let (free, label) = accepted_name name h in
    (
      rw (lookup-put (custom_path name) builtin_path content d, other_path name h) refl,
      λ p. elim (Bool-cases (equal (custom_path name) p)) [
        | inl same ↦ inr (
          sym ((equal_iff (custom_path name) p).0 same) ∙ custom_path-is_label name label,
          different name free,
          is_label-lacks name label,
        )
        | inr other ↦ inl (rw (lookup-put (custom_path name) p content d, other) refl)
      ],
    )

module _ (sys : System) where
  write_source-LeavesOthers :
      (name : Bytes) (hosts : List Bytes) (d : Dir)
      → validate_source_name name ≡ ok tt
      → LeavesOthers name d (write_source sys name hosts d).1
  unfolding write_source write_atomic
  write_source-LeavesOthers name hosts d h =
      let content : Bytes = render_hosts_file (dedupe (lower_hosts hosts)) in
      elim (Bool-cases (sys.write_ok (custom_path name) content)) [
        | inl e ↦ simp e (put-LeavesOthers name content d h)
        | inr e ↦ simp e (unchanged name d)
      ]

  -- Whatever name and hosts `CreateSource` or `UpdateSource` is given, and whether or not it succeeds:
  -- the file of the built-in source stays as it was, and so does every other file but
  -- `<name>.hosts` in the directory of sources, which only changes for a name without a slash that
  -- is not the reserved one.
  pub source-LeavesOthers :
      (name : Bytes) (hosts : List Bytes) (d : Dir)
      → LeavesOthers name d (create_source sys name hosts d).1
        × LeavesOthers name d (update_source sys name hosts d).1
  unfolding create_source update_source
  source-LeavesOthers name hosts d = (
    checked_first name d (validate_source_name name) _ (λ h.
        checked_first name d (for_each validate_hostname hosts) _ (λ _.
          required_first name d (not (exists_file sys (custom_path name) d)) already_exists _
            (write_source-LeavesOthers name hosts d h))),
    checked_first name d (validate_source_name name) _ (λ h.
        checked_first name d (for_each validate_hostname hosts) _ (λ _.
          required_first name d (exists_file sys (custom_path name) d) not_found _
            (write_source-LeavesOthers name hosts d h))),
  )
