-- ===== src/Fragments/Laws.antt =====
-- What the operations on a fragment directory leave behind, whatever Caddy and the system answer.
use router_docker.Prelude.Exec.{continue, pure}
use router_docker.Prelude.{
  ◌≡◌, refl, ap, ◌∙◌, ◌≢◌, ◌⊎◌, inl, inr, Bool, true, false, not, Option, none, some, arith,
  if◌then◌else◌, Error, Result, ok, err, already_exists, not_found, io, invalid_caddyfile,
  reload_failed, Bool-cases, Result-cases,
}
use router_docker.Text.{Bytes, equal}
use router_docker.Text.Laws.{equal_iff}
use router_docker.Fragments.Files.{Dir, lookup, put, remove, lookup-put, lookup-remove, SameFiles}
use router_docker.Fragments.{
  System, exists_file, write_file, remove_file, restore, validate_tree, write_and_validate,
  reload_after_write, create, update_structured,
}

-- Reading, writing and removing do not fail; the directory can still be missing, and Caddy refuse.
pub record IsReliable (sys : System) : Type 0 where
  pub reads : (n : Bytes) → sys.read_ok n ≡ true
  pub writes : (n c : Bytes) → sys.write_ok n c ≡ true
  pub removes : (n : Bytes) → sys.remove_ok n ≡ true

-- The change is on disk: the call succeeded, or only the reload behind it failed.
abbrev pub Saved : Result (Unit {0}) × Dir → Dir → Type 0
Saved r d = ((r.0 ≡ ok tt) ⊎ (r.0 ≡ err reload_failed)) × (r.1 ≡ d)

-- The call failed, by another error, and every file is as it was.
abbrev pub Untouched : Result (Unit {0}) × Dir → Dir → Type 0
Untouched r d = (x : Error) × (r.0 ≡ err x) × (x ≢ reload_failed) × SameFiles r.1 d

pub refused : (x : Error) (d : Dir) → x ≢ reload_failed → Untouched (err x, d) d
refused x d h = (x, refl, h, λ j. refl)

-- the three ends of a write that the system carries out
abbrev written_or_restored : Bool → Bool → Dir → Dir → Dir → Result (Unit {0}) × Dir
written_or_restored made accepted written restored d =
    if not made
    then (err io, d)
    else if accepted
    then (ok tt, written)
    else (err invalid_caddyfile, restored)

written_or_restored-cases :
    (made accepted : Bool) (written restored d : Dir)
    → SameFiles restored d
    → (written_or_restored made accepted written restored d ≡ (ok tt, written))
      ⊎ Untouched (written_or_restored made accepted written restored d) d
written_or_restored-cases false accepted written restored d s = inr (refused io d (λ p. cc))
written_or_restored-cases true true written restored d s = inl refl
written_or_restored-cases true false written restored d s =
    inr (invalid_caddyfile, refl, (λ p. cc), s)

module _ (sys : System) where
  restore-SameFiles :
      (name content : Bytes) (d : Dir) (o : Option Bytes)
      → lookup name d ≡ o
      → IsReliable sys
      → SameFiles (restore sys name o (put name content d)) d
  unfolding restore
  restore-SameFiles name content d none e r j = ground (
    arith,
    r.removes name,
    lookup-remove name j (put name content d),
    lookup-put name j content d,
    equal_iff name j,
  )
  restore-SameFiles name content d (some p) e r j = ground (
    arith,
    r.writes name p,
    lookup-put name j p (put name content d),
    lookup-put name j content d,
    equal_iff name j,
  )

  -- what the calls come to when the system answers
  write_and_validate-reliable :
      (name content : Bytes) (d : Dir)
      → IsReliable sys
      → write_and_validate sys name content d
        ≡ written_or_restored sys.mkdir_ok
            (sys.adapt_ok (put name content d))
            (put name content d)
            (restore sys name (lookup name d) (put name content d))
            d
  unfolding write_and_validate write_file validate_tree
  write_and_validate-reliable name content d r = ground (arith, r.writes name content, r.reads name)

  -- A write that Caddy does not accept, or that is not made at all, leaves every file as it was.
  pub write_and_validate-cases :
      (name content : Bytes) (d : Dir)
      → IsReliable sys
      → (write_and_validate sys name content d ≡ (ok tt, put name content d))
        ⊎ Untouched (write_and_validate sys name content d) d
  write_and_validate-cases name content d r = rw (write_and_validate-reliable name content d r) (
      written_or_restored-cases sys.mkdir_ok (sys.adapt_ok (put name content d))
        (put name content d) (restore sys name (lookup name d) (put name content d)) d
        (restore-SameFiles name content d (lookup name d) refl r))

  pub after_write :
      (w : Result (Unit {0}) × Dir) (target d : Dir)
      → (w ≡ (ok tt, target)) ⊎ Untouched w d
      → Saved (continue w (λ _. reload_after_write sys)) target
        ⊎ Untouched (continue w (λ _. reload_after_write sys)) d
  unfolding reload_after_write
  after_write (ok tt, s) target d (inl e) = ground arith
  after_write (ok tt, s) target d (inr (x, e, n, same)) = cc
  after_write (err y, s) target d (inl e) = cc
  after_write (err y, s) target d (inr u) = inr u

  module _ {E : Type 0} (name_of : E → Bytes) (check : E → Result (Unit {0}))
      (render : E → Bytes) where
    -- Creating a fragment saves it, or leaves every file as it was.
    pub create-cases :
        (e : E) (d : Dir)
        → IsReliable sys
        → check e ≢ err reload_failed
        → Saved (create sys name_of check render e d) (put (name_of e) (render e) d)
          ⊎ Untouched (create sys name_of check render e d) d
    unfolding create
    create-cases e d r plain = elim (Result-cases (check e)) [
      | inr (x, c) ↦ simp c (inr (refused x d (λ p. plain (c ∙ ap err p))))
      | inl c ↦ elim (Bool-cases (exists_file sys (name_of e) d)) [
        | inl there ↦ simp (c, there) (inr (refused already_exists d (λ p. cc)))
        | inr free ↦
            simp (c, free)
              (after_write (write_and_validate sys (name_of e) (render e) d)
                (put (name_of e) (render e) d) d
                (write_and_validate-cases (name_of e) (render e) d r))
      ]
    ]

    abbrev pub renamed : Bytes → E → Dir → Dir
    renamed old e d =
        if not (equal (name_of e) old)
        then remove old (put (name_of e) (render e) d)
        else put (name_of e) (render e) d

    after_rename :
        (renaming : Bool) (old : Bytes) (w : Result (Unit {0}) × Dir) (target d : Dir)
        → IsReliable sys
        → (w ≡ (ok tt, target)) ⊎ Untouched w d
        → (let r : Result (Unit {0}) × Dir = continue w (λ _ s.
              continue
                ((if renaming then remove_file sys old else pure tt) s)
                (λ _. reload_after_write sys)) in
            Saved r (if renaming then remove old target else target) ⊎ Untouched r d)
    unfolding reload_after_write remove_file
    after_rename renaming old (ok tt, s) target d r (inl e) = ground (arith, r.removes old)
    after_rename renaming old (ok tt, s) target d r (inr (x, e, n, same)) = cc
    after_rename renaming old (err y, s) target d r (inl e) = cc
    after_rename renaming old (err y, s) target d r (inr u) = inr u

    -- An update saves the fragment, and drops the old one if it renames; or it leaves every file as
    -- it was.
    pub update_structured-cases :
        (old : Bytes) (e : E) (d : Dir)
        → IsReliable sys
        → check e ≢ err reload_failed
        → Saved (update_structured sys name_of check render old e d) (renamed old e d)
          ⊎ Untouched (update_structured sys name_of check render old e d) d
    unfolding update_structured
    update_structured-cases old e d r plain =
        let w = write_and_validate sys (name_of e) (render e) d in
        let target = put (name_of e) (render e) d in
        let cases = write_and_validate-cases (name_of e) (render e) d r in
        elim (Result-cases (check e)) [
          | inr (x, c) ↦ simp c (inr (refused x d (λ p. plain (c ∙ ap err p))))
          | inl c ↦ elim (Bool-cases (exists_file sys old d)) [
            | inr missing ↦ simp (c, missing) (inr (refused not_found d (λ p. cc)))
            | inl there ↦ elim (Bool-cases (equal (name_of e) old)) [
              | inl same ↦ simp (c, there, same) (after_rename false old w target d r cases)
              | inr other ↦ elim (Bool-cases (exists_file sys (name_of e) d)) [
                | inl taken ↦
                    simp (c, there, other, taken) (inr (refused already_exists d (λ p. cc)))
                | inr free ↦ simp (c, there, other, free) (after_rename true old w target d r cases)
              ]
            ]
          ]
        ]
