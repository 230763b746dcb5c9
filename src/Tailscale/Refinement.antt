-- ===== src/Tailscale/Refinement.antt =====
-- The forwards in the file answer every sequence of calls as a map from names to forwards does.
use mathlib.Core.Path.{fun_ext}
use router_docker.Prelude.Exec.{Exec, continue}
use router_docker.Prelude.{
  ◌≡◌, refl, sym, ap₂, inl, inr, not, Option, none, some, List, [], ◌∷◌, is_empty, Result, ok, err,
  guard, validation, Bool-cases, Result-split,
}
use router_docker.Text.{Bytes}
use router_docker.Keyed.{has, find}
use router_docker.Keyed.Laws.{has-find, find-append, find-replace, find-without}
use router_docker.Document.{Codec, edit}
use router_docker.Document.Laws.{IsReliable, held, edit-accepts, edit-refuses}
use router_docker.Tailscale.Config.{Forward, FileConfig, empty_config}
use router_docker.Tailscale.Forwards.{
  name_of, check_forward, with_forward, changed_forward, without_forward, add_forward,
  update_forward, delete_forward,
}
use router_docker.Tailscale.Names.{
  Names, Call, add, update, delete, put_new, put_old, respond, serve,
}

-- the map that a config stands for
abbrev pub names_of : FileConfig → Names
names_of cfg name = find name_of name cfg.forwards

-- The outcome of a change, read on the map.
abbrev Agrees : Result FileConfig → FileConfig → Result (Unit {0}) × Names → Type 0
Agrees (ok y) x w = (w.0 ≡ ok tt) × (w.1 ≡ names_of y)
Agrees (err e) x w = (w.0 ≡ err e) × (w.1 ≡ names_of x)

with_forward-Agrees :
    (f : Forward) (x : FileConfig) → Agrees (with_forward f x) x (put_new f.name f (names_of x))
unfolding with_forward put_new
with_forward-Agrees f x = elim (Bool-cases (has name_of f.name x.forwards)) [
  | inl taken ↦ rw (← has-find name_of f.name x.forwards) (rw taken (refl, refl))
  | inr free ↦
      rw (← has-find name_of f.name x.forwards)
        (rw free (refl, fun_ext (λ n. sym (find-append name_of n x.forwards f free))))
]

changed_forward-Agrees :
    (f : Forward) (x : FileConfig)
    → Agrees (changed_forward f.name f x) x (put_old f.name (some f) (names_of x))
unfolding changed_forward put_old
changed_forward-Agrees f x = elim (Bool-cases (has name_of f.name x.forwards)) [
  | inr missing ↦ rw (← has-find name_of f.name x.forwards) (rw missing (refl, refl))
  | inl there ↦
      rw (← has-find name_of f.name x.forwards) (
        rw there (refl, fun_ext (λ n. sym (find-replace name_of n f.name f x.forwards refl there))))
]

without_forward-Agrees :
    (name : Bytes) (x : FileConfig)
    → Agrees (without_forward name x) x (put_old name none (names_of x))
unfolding without_forward put_old
without_forward-Agrees name x = elim (Bool-cases (has name_of name x.forwards)) [
  | inr missing ↦ rw (← has-find name_of name x.forwards) (rw missing (refl, refl))
  | inl there ↦
      rw (← has-find name_of name x.forwards)
        (rw there (refl, fun_ext (λ n. sym (find-without name_of n name x.forwards))))
]

-- an answer reduced to success or the error
abbrev discard : {S A : Type 0} → Result A × S → Result (Unit {0}) × S
discard (ok a, s) = (ok tt, s)
discard (err e, s) = (err e, s)

discard-pure :
    {S A : Type 0} (w : Result (Unit {0}) × S) (x : A) → discard (continue w (λ _ s. (ok x, s))) ≡ w
discard-pure (ok tt, s) x = refl
discard-pure (err e, s) x = refl

module _ {C : Type 0} (b : Codec FileConfig C) where
  -- one call on the file
  unfoldable pub perform : Call → Exec (Option C) (Unit {0})
  perform (add f) s = discard (add_forward b f s)
  perform (update name f) s = discard (update_forward b name f s)
  perform (delete name) s = delete_forward b name s

  -- The same answer, and a file that stands for the map.
  abbrev pub Refines : Result (Unit {0}) × Option C → Result (Unit {0}) × Names → Type 0
  Refines v w =
      (v.0 ≡ w.0) × ((y : FileConfig) × (held b empty_config v.1 ≡ some y) × (names_of y ≡ w.1))

  module _ (r : IsReliable b) where
    edit-Refines :
        (change : FileConfig → Result FileConfig) (s : Option C) (x : FileConfig)
        (w : Result (Unit {0}) × Names)
        → held b empty_config s ≡ some x
        → Agrees (change x) x w
        → Refines (edit b empty_config change s) w
    edit-Refines change s x w h a = elim (Result-split (change x)) [
      | inl (y, e) ↦
          let a' : Agrees (ok y) x w = rw e at a in
          rw (edit-accepts b empty_config r change s x y h e)
            (sym a'.0, (y, r.codec.unmarshal-marshal y, sym a'.1))
      | inr (x', e) ↦
          let a' : Agrees (err x') x w = rw e at a in
          rw (edit-refuses b empty_config r change s x x' h e) (sym a'.0, (x, h, sym a'.1))
    ]

    checked-Refines :
        {A : Type 0} (q : Result (Unit {0})) (m : Exec (Option C) A) (k : Exec Names (Unit {0}))
        (s : Option C) (x : FileConfig)
        → held b empty_config s ≡ some x
        → Refines (discard (m s)) (k (names_of x))
        → Refines (discard (continue (q, s) (λ _. m))) (continue (q, names_of x) (λ _. k))
    checked-Refines (ok tt) m k s x h a = a
    checked-Refines (err e) m k s x h a = (refl, (x, h, refl))

    perform-Refines :
        (c : Call) (s : Option C) (x : FileConfig)
        → held b empty_config s ≡ some x
        → Refines (perform c s) (respond c (names_of x))
    unfolding perform add_forward update_forward delete_forward respond
    perform-Refines (add f) s x h =
        checked-Refines (guard (not (is_empty f.name)) validation) _ _ s x h (
          checked-Refines (check_forward f) _ _ s x h (
            rw (discard-pure (edit b empty_config (with_forward f) s) f)
              (edit-Refines (with_forward f) s x _ h (with_forward-Agrees f x))))
    perform-Refines (update name f) s x h =
        let g : Forward = record f { name = name } in
        checked-Refines (check_forward g) _ _ s x h (
          rw (discard-pure (edit b empty_config (changed_forward name g) s) g)
            (edit-Refines (changed_forward name g) s x _ h (changed_forward-Agrees g x)))
    perform-Refines (delete name) s x h =
        edit-Refines (without_forward name) s x _ h (without_forward-Agrees name x)

    -- Where reads and writes work and yaml.v3 reads back what it writes, a file that decodes answers
    -- every sequence of `AddForward`, `UpdateForward` and `DeleteForward` calls as the map from
    -- names to forwards does that it stands for: the same successes and errors in the same order,
    -- and the file that is left stands for the map that is left.
    pub serve_refines :
        (cs : List Call) (s : Option C) (x : FileConfig)
        → held b empty_config s ≡ some x
        → ((serve perform cs s).0 ≡ (serve respond cs (names_of x)).0)
          × ((y : FileConfig) × (held b empty_config (serve perform cs s).1 ≡ some y)
              × (names_of y ≡ (serve respond cs (names_of x)).1))
    unfolding serve
    serve_refines [] s x h = (refl, (x, h, refl))
    serve_refines (c ∷ cs) s x h =
        let (answer, (y, hy, ny)) = perform-Refines c s x h in
        let (answers, (z, hz, nz)) = serve_refines cs (perform c s).1 y hy in
        rw (← ny) (ap₂ (λ q qs. q ∷ qs) answer answers, (z, hz, nz))
