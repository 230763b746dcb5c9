-- ===== src/NetGate/Forwards/Invariant.antt =====
-- The forwards of the live file: one per host port, each to an allowed host.
use mathlib.Core.Option.{some-injective}
use router_docker.Prelude.Exec.{continue}
use router_docker.Prelude.{
  ◌≡◌, refl, sym, ◌∙◌, inl, inr, Bool, true, false, Option, none, some, List, [], ◌∷◌, ◌++◌, Error,
  Result, ok, err, arith, All-append, for_each, Bool-cases, Result-cases, Result-split, subst,
}
use router_docker.Text.{Bytes}
use router_docker.Text.Decimal.{ℤ}
use router_docker.NetGate.Config.{
  OutboundRule, Forward, Bandwidth, FileConfig, Backend, IsBackend, empty_config, load_from, load,
  save,
}
use router_docker.NetGate.Outbound.{check_rule, check_v4_backstop, replace_outbound}
use router_docker.NetGate.Forwards.{
  check_forward, has_port, without_port, check_bandwidth, add_forward, delete_forward,
  set_bandwidth,
}
use router_docker.NetGate.Forwards.Unique.{
  IsValid, int_eq_refl, has_port-append, unique_ports-append, unique_ports-without_port,
  All-without_port, without_port-append,
}

-- the config that a file holds; a missing file holds the empty one
abbrev pub held : {C : Type 0} → Backend C → Option C → Option FileConfig
held b none = some empty_config
held b (some content) = b.unmarshal content

-- Whatever the file decodes to, its forwards are valid.
abbrev pub HoldsValid : {C : Type 0} → Backend C → List Bytes → Option C → Type 0
HoldsValid b allowed s = (cfg : FileConfig) → held b s ≡ some cfg → IsValid allowed cfg.forwards

load_from-held :
    {C : Type 0} (b : Backend C) (s : Option C) (cfg : FileConfig)
    → load_from b s ≡ ok cfg
    → held b s ≡ some cfg
unfolding load_from
load_from-held b none cfg h = ground arith
load_from-held b (some content) cfg h = ground arith

saved-HoldsValid :
    {C : Type 0} (b : Backend C) (allowed : List Bytes) (s : Option C) (cfg : FileConfig)
    → IsBackend b
    → HoldsValid b allowed s
    → IsValid allowed cfg.forwards
    → HoldsValid b allowed (save b cfg s).1
unfolding save
saved-HoldsValid b allowed s cfg hb hs valid = elim (Bool-cases b.write_ok) [
  | inr e ↦ simp e hs
  | inl e ↦ simp e (λ c h.
      subst (λ (x : FileConfig). IsValid allowed x.forwards)
        (some-injective _ _ (sym (hb.unmarshal-marshal cfg) ∙ h)) valid)
]

continue-pure :
    {S A B : Type 0} (w : Result A × S) (x : B) → (continue w (λ _ s. (ok x, s))).1 ≡ w.1
continue-pure (ok a, s) x = refl
continue-pure (err e, s) x = refl

appended-IsValid :
    (allowed : List Bytes) (fs : List Forward) (f : Forward)
    → IsValid allowed fs
    → check_forward allowed f ≡ ok tt
    → has_port f.host_port fs ≡ false
    → IsValid allowed (fs ++ f ∷ [])
appended-IsValid allowed fs f v c h = record {
  checked = All-append (λ g. check_forward allowed g ≡ ok tt) fs (f ∷ []) v.checked (c, tt);
  distinct = unique_ports-append fs f v.distinct h;
}

not_ok : {A : Type 0} {x : Error} {a : A} → err x ≡ ok a → ⊥
not_ok h = cc

module _ {C : Type 0} (b : Backend C) (allowed : List Bytes) (hb : IsBackend b) where
  add_forward-HoldsValid :
      (f : Forward) (s : Option C)
      → HoldsValid b allowed s
      → HoldsValid b allowed (add_forward b allowed f s).1
  unfolding add_forward load
  add_forward-HoldsValid f s hs = elim (Result-cases (check_forward allowed f)) [
    | inr (x, c) ↦ simp c hs
    | inl c ↦ elim (Result-split (load_from b s)) [
      | inr (x, l) ↦ simp (c, l) hs
      | inl (cfg, l) ↦ elim (Bool-cases (has_port f.host_port cfg.forwards)) [
        | inl taken ↦ simp (c, l, taken) hs
        | inr free ↦
            let next : FileConfig = record cfg { forwards = cfg.forwards ++ f ∷ [] } in
            let valid =
              appended-IsValid allowed cfg.forwards f (hs cfg (load_from-held b s cfg l)) c free in
            simp (c, l, free)
              (rw (continue-pure (save b next s) f) (saved-HoldsValid b allowed s next hb hs valid))
      ]
    ]
  ]

  delete_forward-HoldsValid :
      (port : ℤ) (s : Option C)
      → HoldsValid b allowed s
      → HoldsValid b allowed (delete_forward b port s).1
  unfolding delete_forward load
  delete_forward-HoldsValid port s hs = elim (Result-split (load_from b s)) [
    | inr (x, l) ↦ simp l hs
    | inl (cfg, l) ↦ elim (Bool-cases (has_port port cfg.forwards)) [
      | inr missing ↦ simp (l, missing) hs
      | inl there ↦
          let next : FileConfig = record cfg { forwards = without_port port cfg.forwards } in
          let old = hs cfg (load_from-held b s cfg l) in
          let valid : IsValid allowed next.forwards = record {
            checked =
                All-without_port (λ f. check_forward allowed f ≡ ok tt) port cfg.forwards
                  old.checked;
            distinct = unique_ports-without_port port cfg.forwards old.distinct;
          } in
          simp (l, there) (saved-HoldsValid b allowed s next hb hs valid)
    ]
  ]

  replace_outbound-HoldsValid :
      (rules : List OutboundRule) (s : Option C)
      → HoldsValid b allowed s
      → HoldsValid b allowed (replace_outbound b rules s).1
  unfolding replace_outbound load
  replace_outbound-HoldsValid rules s hs = elim (Result-cases (for_each check_rule rules)) [
    | inr (x, c) ↦ simp c hs
    | inl c ↦ elim (Result-cases (check_v4_backstop rules)) [
      | inr (x, k) ↦ simp (c, k) hs
      | inl k ↦ elim (Result-split (load_from b s)) [
        | inr (x, l) ↦ simp (c, k, l) hs
        | inl (cfg, l) ↦
            let next : FileConfig = record cfg { outbound = rules } in
            simp (c, k, l)
              (rw (continue-pure (save b next s) rules)
                (saved-HoldsValid b allowed s next hb hs (hs cfg (load_from-held b s cfg l))))
      ]
    ]
  ]

  set_bandwidth-HoldsValid :
      (bw : Bandwidth) (s : Option C)
      → HoldsValid b allowed s
      → HoldsValid b allowed (set_bandwidth b bw s).1
  unfolding set_bandwidth load
  set_bandwidth-HoldsValid bw s hs = elim (Result-cases (check_bandwidth bw)) [
    | inr (x, c) ↦ simp c hs
    | inl c ↦ elim (Result-split (load_from b s)) [
      | inr (x, l) ↦ simp (c, l) hs
      | inl (cfg, l) ↦
          let next : FileConfig = record cfg { bandwidth = bw } in
          simp (c, l)
            (rw (continue-pure (save b next s) bw)
              (saved-HoldsValid b allowed s next hb hs (hs cfg (load_from-held b s cfg l))))
    ]
  ]

  load_from-marshal :
      (cfg : FileConfig) → b.read_ok ≡ true → load_from b (some (b.marshal cfg)) ≡ ok cfg
  unfolding load_from
  load_from-marshal cfg hr = simp (hr, hb.unmarshal-marshal cfg) refl

  delete_forward-last :
      (f : Forward) (cfg : FileConfig)
      → b.read_ok ≡ true
      → b.write_ok ≡ true
      → has_port f.host_port cfg.forwards ≡ false
      → held b
          (delete_forward b f.host_port
            (some (b.marshal (record cfg { forwards = cfg.forwards ++ f ∷ [] })))).1
        ≡ some cfg
  unfolding delete_forward load save
  delete_forward-last f cfg hr hw free =
      let next : FileConfig = record cfg { forwards = cfg.forwards ++ f ∷ [] } in
      let there : has_port f.host_port (cfg.forwards ++ f ∷ []) ≡ true =
        ground (arith, has_port-append f.host_port cfg.forwards f, int_eq_refl f.host_port) in
      rw (load_from-marshal next hr)
        (simp (there, hw, without_port-append cfg.forwards f free) (hb.unmarshal-marshal cfg))

  -- A forward that `AddForward` saved is taken back by `DeleteForward` of its host port: the file
  -- then decodes to the config that it decoded to before, when reads and writes work and yaml.v3
  -- reads back what it writes.
  pub delete_forward-add_forward :
      (f : Forward) (s : Option C) (cfg : FileConfig)
      → b.read_ok ≡ true
      → b.write_ok ≡ true
      → load_from b s ≡ ok cfg
      → (add_forward b allowed f s).0 ≡ ok f
      → held b (delete_forward b f.host_port (add_forward b allowed f s).1).1 ≡ some cfg
  unfolding add_forward load save
  delete_forward-add_forward f s cfg hr hw l done = elim (Result-cases (check_forward allowed f)) [
    | inr (x, c) ↦ absurd (ground (arith, c, done))
    | inl c ↦ elim (Bool-cases (has_port f.host_port cfg.forwards)) [
      | inl taken ↦ absurd (not_ok (simp (c, l, taken) at done))
      | inr free ↦ simp (c, l, free, hw) (delete_forward-last f cfg hr hw free)
    ]
  ]

-- The file after some calls of the operations that write it. What the system answers, to reads and
-- to writes, may change from one call to the next.
pub data Calls {C : Type 0} (b : Backend C) (allowed : List Bytes) (s : Option C)
    : Option C → Type 0 where
  start : Calls b allowed s s
  add :
      {t : Option C} (r w : Bool) (f : Forward)
      → Calls b allowed s t
      → Calls b allowed s (add_forward (record b { read_ok = r; write_ok = w }) allowed f t).1
  delete :
      {t : Option C} (r w : Bool) (port : ℤ)
      → Calls b allowed s t
      → Calls b allowed s (delete_forward (record b { read_ok = r; write_ok = w }) port t).1
  replace :
      {t : Option C} (r w : Bool) (rules : List OutboundRule)
      → Calls b allowed s t
      → Calls b allowed s (replace_outbound (record b { read_ok = r; write_ok = w }) rules t).1
  limit :
      {t : Option C} (r w : Bool) (bw : Bandwidth)
      → Calls b allowed s t
      → Calls b allowed s (set_bandwidth (record b { read_ok = r; write_ok = w }) bw t).1

-- Starting from a live file whose forwards are valid (each passes the checks of `AddForward`, and
-- no two share a host port), or from no file, every sequence of calls, whatever fails on the way,
-- leaves a file whose forwards are valid; where yaml.v3 reads back what it writes.
pub Calls-HoldsValid :
    {C : Type 0} {b : Backend C} {allowed : List Bytes} {s t : Option C}
    → IsBackend b
    → HoldsValid b allowed s
    → Calls b allowed s t
    → HoldsValid b allowed t
Calls-HoldsValid hb hs start = hs
Calls-HoldsValid {b} {allowed} hb hs (add {t} r w f c) =
    add_forward-HoldsValid (record b { read_ok = r; write_ok = w }) allowed
      (record { unmarshal-marshal = hb.unmarshal-marshal }) f t (Calls-HoldsValid hb hs c)
Calls-HoldsValid {b} {allowed} hb hs (delete {t} r w port c) =
    delete_forward-HoldsValid (record b { read_ok = r; write_ok = w }) allowed
      (record { unmarshal-marshal = hb.unmarshal-marshal }) port t (Calls-HoldsValid hb hs c)
Calls-HoldsValid {b} {allowed} hb hs (replace {t} r w rules c) =
    replace_outbound-HoldsValid (record b { read_ok = r; write_ok = w }) allowed
      (record { unmarshal-marshal = hb.unmarshal-marshal }) rules t (Calls-HoldsValid hb hs c)
Calls-HoldsValid {b} {allowed} hb hs (limit {t} r w bw c) =
    set_bandwidth-HoldsValid (record b { read_ok = r; write_ok = w }) allowed
      (record { unmarshal-marshal = hb.unmarshal-marshal }) bw t (Calls-HoldsValid hb hs c)
