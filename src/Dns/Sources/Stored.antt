-- ===== src/Dns/Sources/Stored.antt =====
-- What a stored source holds, and which file a name stands for.
use router_docker.Prelude.{
  ◌≡◌, ◌↔◌, refl, sym, ap, ◌⊎◌, ◌∙◌, inl, inr, true, not, some, List, [], ◌∷◌, All, Error, Result,
  ok, err, for_each, for_each-All, guard-eq-ok, validation, and_right, subst, Bool-cases,
  Result-cases, is_empty,
}
use router_docker.Text.{Bytes, contains}
use router_docker.Text.Laws.{equal_refl}
use router_docker.Fragments.Files.{Dir, lookup, lookup-put}
use router_docker.Fragments.Normalize.{is_distinct}
use router_docker.Dns.System.{System, exists_file, write_atomic}
use router_docker.Dns.Hosts.{
  validate_source_name, validate_hostname, render_hosts_file, parse_hosts_list, lower_hosts, dedupe,
}
use router_docker.Dns.Hosts.Firsts.{Firsts, IsAmong, Firsts-dedupe, IsAmong-dedupe}
use router_docker.Dns.Hosts.Distinct.{distinct-dedupe, All-dedupe}
use router_docker.Dns.Hosts.RoundTrip.{
  is_word, is_word-to_lower, parse_hosts_list-render_hosts_file,
}
use router_docker.Dns.Sources.{custom_path, write_source, create_source, update_source}

-- The source's file lists these hosts: each in lower case in the place where it comes first, no host
-- twice, all of them and no other.
abbrev pub Lists : Bytes → List Bytes → Dir → Type 0
Lists name hosts d =
    (content : Bytes) × (lookup (custom_path name) d ≡ some content)
    × Firsts [] hosts (parse_hosts_list content)
    × (is_distinct (parse_hosts_list content) ≡ true)
    × ((k : Bytes) → (contains (parse_hosts_list content) k ≡ true) ↔ IsAmong k hosts)

lower_words :
    (hosts : List Bytes)
    → All (λ h. validate_hostname h ≡ ok tt) hosts
    → All (λ h. is_word h ≡ true) (lower_hosts hosts)
unfolding validate_hostname lower_hosts
lower_words [] a = tt
lower_words (h ∷ hs) a = (
  is_word-to_lower h (and_right (not (is_empty h)) _ (guard-eq-ok _ validation a.0)),
  lower_words hs a.1,
)

not_ok : {x : Error} → ◌≡◌ {A = Result (Unit {0})} (err x) (ok tt) → ⊥
not_ok h = cc

module _ (sys : System) where
  write_source-Lists :
      (name : Bytes) (hosts : List Bytes) (d : Dir)
      → for_each validate_hostname hosts ≡ ok tt
      → (write_source sys name hosts d).0 ≡ ok tt
      → Lists name hosts (write_source sys name hosts d).1
  unfolding write_source write_atomic
  write_source-Lists name hosts d v done =
      let content : Bytes = render_hosts_file (dedupe (lower_hosts hosts)) in
      let read : parse_hosts_list content ≡ dedupe (lower_hosts hosts) =
        parse_hosts_list-render_hosts_file (dedupe (lower_hosts hosts)) (
          All-dedupe (λ h. is_word h ≡ true) (lower_hosts hosts)
            (lower_words hosts (for_each-All validate_hostname hosts v))) in
      elim (Bool-cases (sys.write_ok (custom_path name) content)) [
        | inr e ↦ absurd (not_ok (simp e at done))
        | inl e ↦ simp e (
          content,
          rw
              (
                lookup-put (custom_path name) (custom_path name) content d,
                equal_refl (custom_path name),
              )
              refl,
          subst (Firsts [] hosts) (sym read) (Firsts-dedupe hosts),
          ap is_distinct read ∙ distinct-dedupe (lower_hosts hosts),
          λ k.
              subst (λ ks. (contains ks k ≡ true) ↔ IsAmong k hosts) (sym read)
                (IsAmong-dedupe k hosts),
        )
      ]

  create_source-Lists :
      (name : Bytes) (hosts : List Bytes) (d : Dir)
      → (create_source sys name hosts d).0 ≡ ok tt
      → Lists name hosts (create_source sys name hosts d).1
  unfolding create_source
  create_source-Lists name hosts d done = elim (Result-cases (validate_source_name name)) [
    | inr (x, c) ↦ absurd (not_ok (simp c at done))
    | inl c ↦ elim (Result-cases (for_each validate_hostname hosts)) [
      | inr (x, v) ↦ absurd (not_ok (simp (c, v) at done))
      | inl v ↦ elim (Bool-cases (exists_file sys (custom_path name) d)) [
        | inl taken ↦ absurd (not_ok (simp (c, v, taken) at done))
        | inr free ↦
            simp (c, v, free) (write_source-Lists name hosts d v (simp (c, v, free) at done))
      ]
    ]
  ]

  update_source-Lists :
      (name : Bytes) (hosts : List Bytes) (d : Dir)
      → (update_source sys name hosts d).0 ≡ ok tt
      → Lists name hosts (update_source sys name hosts d).1
  unfolding update_source
  update_source-Lists name hosts d done = elim (Result-cases (validate_source_name name)) [
    | inr (x, c) ↦ absurd (not_ok (simp c at done))
    | inl c ↦ elim (Result-cases (for_each validate_hostname hosts)) [
      | inr (x, v) ↦ absurd (not_ok (simp (c, v) at done))
      | inl v ↦ elim (Bool-cases (exists_file sys (custom_path name) d)) [
        | inr missing ↦ absurd (not_ok (simp (c, v, missing) at done))
        | inl there ↦
            simp (c, v, there) (write_source-Lists name hosts d v (simp (c, v, there) at done))
      ]
    ]
  ]

  -- A `CreateSource` or an `UpdateSource` that succeeds leaves a file from which `parseHostsList`
  -- reads back the given hosts in lower case (`A` to `Z` moved to `a` to `z`, every other byte kept):
  -- each where it comes first among them, no host twice, all of them and no other.
  pub source-Lists :
      (name : Bytes) (hosts : List Bytes) (d : Dir) (w : Result (Unit {0}) × Dir)
      → (w ≡ create_source sys name hosts d) ⊎ (w ≡ update_source sys name hosts d)
      → w.0 ≡ ok tt
      → Lists name hosts w.1
  source-Lists name hosts d w (inl e) done =
      subst (λ v. Lists name hosts v.1) (sym e)
        (create_source-Lists name hosts d (subst (λ v. v.0 ≡ ok tt) e done))
  source-Lists name hosts d w (inr e) done =
      subst (λ v. Lists name hosts v.1) (sym e)
        (update_source-Lists name hosts d (subst (λ v. v.0 ≡ ok tt) e done))
