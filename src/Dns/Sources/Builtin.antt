-- ===== src/Dns/Sources/Builtin.antt =====
-- The source that the image ships: taking its update over, or waving it through.
use router_docker.Prelude.Exec.{Exec, continue}
use router_docker.Prelude.{
  ◌≡◌, ◌≢◌, refl, sym, ap, ◌∙◌, inl, inr, true, false, Option, none, some, [], Error, Result, ok,
  err, subst, arith, Bool-cases, Result-split,
}
use router_docker.Text.{Bytes, equal}
use router_docker.Text.Laws.{equal_refl, equal_iff, equal-eq-false}
use router_docker.Text.Lines.{lacks}
use router_docker.Keyed.{distinct}
use router_docker.Fragments.Files.{Dir, lookup, put, lookup-put}
use router_docker.Dns.System.{System, read_file, write_atomic}
use router_docker.Dns.Hosts.{builtin_name}
use router_docker.Dns.Manifest.{
  Manifest, manifest_path, parse_manifest, render_manifest, load_manifest, save_manifest,
  read_manifest,
}
use router_docker.Dns.Manifest.RoundTrip.{
  IsManifest, put-IsManifest, parse_manifest-IsManifest, lookup-parse_manifest,
}
use router_docker.Dns.Sources.{
  shipped_default_path, builtin_path, no_update, status_of, get_builtin_status, builtin_pull,
  builtin_ignore,
}

ok_injective : {A : Type 0} (a b : A) → ok a ≡ ok b → a ≡ b
ok_injective a b h = cc

not_read : {A : Type 0} {a : A} {x : Error} → ◌≡◌ {A = Result A} (err x) (ok a) → ⊥
not_read h = cc

lookup_other : (k j content : Bytes) (d : Dir) → k ≢ j → lookup j (put k content d) ≡ lookup j d
lookup_other k j content d ne = rw (lookup-put k j content d, equal-eq-false k j ne) refl

manifest_differs : equal manifest_path builtin_path ≡ false
unfolding equal builtin_path
manifest_differs = refl

paths_differ : manifest_path ≢ builtin_path
paths_differ e = cc (manifest_differs, (equal_iff manifest_path builtin_path).1 e)

-- what is known of ranging over a map: every name comes once, with its value
pub record IsOrder (order : Manifest → Manifest) : Type 0 where
  pub keeps : (m : Manifest) → IsManifest m → IsManifest (order m)
  pub lookup-order : (k : Bytes) (m : Manifest) → IsManifest m → lookup k (order m) ≡ lookup k m

module _ (sys : System) where
  read_file_state : (path : Bytes) (d : Dir) → read_file sys path d ≡ ((read_file sys path d).0, d)
  unfolding read_file
  read_file_state path d = refl

  read_file-ok :
      (path content : Bytes) (d : Dir)
      → (read_file sys path d).0 ≡ ok content
      → read_file sys path d ≡ (ok content, d)
  read_file-ok path content d h = read_file_state path d ∙ ap (λ r. (r, d)) h

  -- a file that did not change reads as before
  read_file-same :
      (path : Bytes) (d e : Dir)
      → lookup path e ≡ lookup path d
      → (read_file sys path e).0 ≡ (read_file sys path d).0
  unfolding read_file
  read_file-same path d e h = rw h refl

  loaded_from : (c : Option Bytes) (m : Manifest) → read_manifest sys c ≡ ok m → IsManifest m
  loaded_from none m l = subst IsManifest (ok_injective [] m l) nothing_read
    where
      nothing_read : IsManifest []
      nothing_read = record { entries = tt; names = unfold distinct in refl }
  loaded_from (some content) m l = elim (Bool-cases (sys.read_ok manifest_path)) [
    | inr e ↦ absurd (not_read (simp e at l))
    | inl e ↦
        subst IsManifest (ok_injective (parse_manifest content) m (simp e at l))
          (parse_manifest-IsManifest content)
  ]

  loaded-IsManifest : (d : Dir) (m : Manifest) → (load_manifest sys d).0 ≡ ok m → IsManifest m
  unfolding load_manifest
  loaded-IsManifest d m l = loaded_from (lookup manifest_path d) m l

  load_state : (d : Dir) → load_manifest sys d ≡ ((load_manifest sys d).0, d)
  unfolding load_manifest
  load_state d = refl

  load_saved :
      (d : Dir) (content : Bytes)
      → sys.read_ok manifest_path ≡ true
      → lookup manifest_path d ≡ some content
      → load_manifest sys d ≡ (ok (parse_manifest content), d)
  unfolding load_manifest
  load_saved d content r l = simp (l, r) refl

module _ (sys : System) (hash : Bytes → Bytes) (env : Bytes) (order : Manifest → Manifest)
    (o : IsOrder order) (hex : (b : Bytes) → lacks b'\n' (hash b) ≡ true) where
  -- the manifest that names the shipped content
  abbrev settled : Bytes → Manifest → Manifest
  settled shipped m = put builtin_name (hash shipped) m

  settled-IsManifest :
      (shipped : Bytes) (m : Manifest) → IsManifest m → IsManifest (settled shipped m)
  unfolding lacks
  settled-IsManifest shipped m v =
      put-IsManifest builtin_name (hash shipped) m
        (record { named = refl; name_field = refl; name_line = refl; hash_line = hex shipped }) v

  lookup-settled :
      (shipped : Bytes) (m : Manifest)
      → IsManifest m
      → lookup builtin_name (parse_manifest (render_manifest (order (settled shipped m))))
        ≡ some (hash shipped)
  lookup-settled shipped m v =
      let w = settled-IsManifest shipped m v in
      lookup-parse_manifest (order (settled shipped m)) builtin_name (o.keeps (settled shipped m) w)
      ∙ o.lookup-order builtin_name (settled shipped m) w
      ∙ lookup-put builtin_name builtin_name (hash shipped) m
      ∙ rw (equal_refl builtin_name) refl

  status_same :
      (shipped : Bytes) (live : Result Bytes)
      → status_of sys hash env shipped (hash shipped) live ≡ no_update
  unfolding status_of
  status_same shipped live = rw (equal_refl (hash shipped)) (ground arith)

  -- Where the manifest names the shipped content, no update is reported.
  status_settled :
      (shipped : Bytes) (m : Manifest) (d : Dir)
      → IsManifest m
      → sys.read_ok manifest_path ≡ true
      → (read_file sys (shipped_default_path env) d).0 ≡ ok shipped
      → lookup manifest_path d ≡ some (render_manifest (order (settled shipped m)))
      → (get_builtin_status sys hash env d).0 ≡ ok no_update
  unfolding get_builtin_status
  status_settled shipped m d v r s l =
      simp
        (
          read_file-ok sys (shipped_default_path env) shipped d s,
          load_saved sys d (render_manifest (order (settled shipped m))) r l,
          lookup-settled shipped m v,
          status_same shipped (read_file sys builtin_path d).0,
        )
        refl

  -- the last step of both actions: the manifest is loaded, changed and saved
  abbrev record_hash : Bytes → Exec Dir (Unit {0})
  record_hash shipped d =
      continue (load_manifest sys d) (λ m. save_manifest sys order (settled shipped m))

  record_hash-settles :
      (shipped : Bytes) (d : Dir)
      → sys.read_ok manifest_path ≡ true
      → shipped_default_path env ≢ manifest_path
      → (read_file sys (shipped_default_path env) d).0 ≡ ok shipped
      → (record_hash shipped d).0 ≡ ok tt
      → ((get_builtin_status sys hash env (record_hash shipped d).1).0 ≡ ok no_update)
        × (lookup builtin_path (record_hash shipped d).1 ≡ lookup builtin_path d)
  unfolding save_manifest write_atomic
  record_hash-settles shipped d r ne s done = elim (Result-split (load_manifest sys d).0) [
    | inr (x, l) ↦ absurd (not_read {a = tt} (simp (load_state sys d ∙ ap (λ q. (q, d)) l) at done))
    | inl (m, l) ↦
        let loaded : load_manifest sys d ≡ (ok m, d) = load_state sys d ∙ ap (λ q. (q, d)) l in
        let content : Bytes = render_manifest (order (settled shipped m)) in
        elim (Bool-cases (sys.write_ok manifest_path content)) [
          | inr e ↦ absurd (not_read {a = tt} (simp (loaded, e) at done))
          | inl e ↦
              let next : Dir = put manifest_path content d in
              let written : lookup manifest_path next ≡ some content =
                rw (lookup-put manifest_path manifest_path content d, equal_refl manifest_path)
                  refl in
              let other : lookup (shipped_default_path env) next
                  ≡ lookup (shipped_default_path env) d =
                lookup_other manifest_path (shipped_default_path env) content d (λ q. ne (sym q)) in
              simp (loaded, e)
                (
                  status_settled shipped m next (loaded-IsManifest sys d m l) r
                      (read_file-same sys (shipped_default_path env) d next other ∙ s) written,
                  lookup_other manifest_path builtin_path content d paths_differ,
                )
        ]
  ]

  -- A `BuiltinPull` that succeeds leaves the shipped content as the live copy, and no update is
  -- reported any more; where the manifest can be read back, the shipped file is another file than
  -- the live copy and the manifest, and a hash is one line.
  pub builtin_pull-settles :
      (d : Dir) (shipped : Bytes)
      → sys.read_ok manifest_path ≡ true
      → shipped_default_path env ≢ manifest_path
      → shipped_default_path env ≢ builtin_path
      → (read_file sys (shipped_default_path env) d).0 ≡ ok shipped
      → (builtin_pull sys hash env order d).0 ≡ ok tt
      → (let e = (builtin_pull sys hash env order d).1 in
          ((get_builtin_status sys hash env e).0 ≡ ok no_update)
          × (lookup builtin_path e ≡ some shipped))
  unfolding builtin_pull write_atomic
  builtin_pull-settles d shipped r ne nb s done =
      let read = read_file-ok sys (shipped_default_path env) shipped d s in
      elim (Bool-cases (sys.write_ok builtin_path shipped)) [
        | inr e ↦ absurd (not_read {a = tt} (simp (read, e) at done))
        | inl e ↦
            let live : Dir = put builtin_path shipped d in
            let other : lookup (shipped_default_path env) live
                ≡ lookup (shipped_default_path env) d =
              lookup_other builtin_path (shipped_default_path env) shipped d (λ q. nb (sym q)) in
            let (status, kept) =
              record_hash-settles shipped live r ne
                (read_file-same sys (shipped_default_path env) d live other ∙ s)
                (simp (read, e) at done) in
            let written : lookup builtin_path live ≡ some shipped =
              rw (lookup-put builtin_path builtin_path shipped d, equal_refl builtin_path) refl in
            simp (read, e) (status, kept ∙ written)
      ]

  -- A `BuiltinIgnore` that succeeds leaves the live copy as it was, and no update is reported any
  -- more; where the manifest can be read back, the shipped file is not the manifest, and a hash is
  -- one line.
  pub builtin_ignore-settles :
      (d : Dir) (shipped : Bytes)
      → sys.read_ok manifest_path ≡ true
      → shipped_default_path env ≢ manifest_path
      → (read_file sys (shipped_default_path env) d).0 ≡ ok shipped
      → (builtin_ignore sys hash env order d).0 ≡ ok tt
      → (let e = (builtin_ignore sys hash env order d).1 in
          ((get_builtin_status sys hash env e).0 ≡ ok no_update)
          × (lookup builtin_path e ≡ lookup builtin_path d))
  unfolding builtin_ignore
  builtin_ignore-settles d shipped r ne s done =
      let read = read_file-ok sys (shipped_default_path env) shipped d s in
      simp read (record_hash-settles shipped d r ne s (simp read at done))
