-- ===== src/Vnc/Keeps.antt =====
-- What each operation leaves of a registry that is in order.
use router_docker.Prelude.Exec.{Exec, continue, pure, fail, lift, require}
use router_docker.Prelude.{
  ◌≡◌, refl, ◌⊎◌, inl, inr, Bool, true, false, not, ◌||◌, Option, none, some, List, [], ◌∷◌, ◌++◌,
  if◌then◌else◌, All, All-append, Error, Result, ok, err, target_exists, arith, Bool-cases,
  not-eq-true,
}
use router_docker.Text.{Bytes, equal}
use router_docker.Keyed.{has, find, replace, remove_first, distinct}
use router_docker.Keyed.Laws.{
  distinct-append, distinct-rename, distinct-remove_first, All-replace, All-remove_first,
}
use router_docker.Keyed.Order.{sort, ascending, ascending-sort, distinct-sort, All-sort}
use router_docker.Document
use router_docker.Document.{Codec}
use router_docker.Document.Laws.{IsCodec, Holds, save-Holds, held-read_from}
use router_docker.Fragments.{System}
use router_docker.Fragments.Files.{Dir}
use router_docker.DevProxy.Validate.{Settings}
use router_docker.AppRoutes.Store as AppRoutes
use router_docker.Vnc.Target.{Target, name_of, uses_app_route, validate}
use router_docker.Vnc.Store.{
  Files, found, on_registry, on_routes, on_routes_done, attempted, attempt, checked, answered,
  is_reload_failed, unless_missing, create_route, carry_route, register, finish_create, roll_back,
  create, update, delete, load, save,
}

-- Every target passes `validate`, and the names ascend, so that no two are the same.
pub record IsRegistry (st : Settings) (ts : List Target) : Type 0 where
  pub checked : All (λ t. validate st t ≡ ok tt) ts
  pub ordered : ascending name_of ts ≡ true
  pub names : distinct name_of ts ≡ true

-- what a list has to be for `save`
pub record IsSavable (st : Settings) (ts : List Target) : Type 0 where
  pub checked : All (λ t. validate st t ≡ ok tt) ts
  pub names : distinct name_of ts ≡ true

sort-IsRegistry :
    (st : Settings) (ts : List Target) → IsSavable st ts → IsRegistry st (sort name_of ts)
sort-IsRegistry st ts v = record {
  checked = All-sort name_of (λ t. validate st t ≡ ok tt) ts v.checked;
  ordered = ascending-sort name_of ts v.names;
  names = distinct-sort name_of ts v.names;
}

require-true : {S : Type 0} (b : Bool) (e : Error) (s : S) → (require b e s).0 ≡ ok tt → b ≡ true
require-true true e s h = refl
require-true false e s h = cc

renamed :
    (t : Target) (old : Bytes) (ts : List Target)
    → (equal t.name old || not (has name_of t.name ts)) ≡ true
    → (equal t.name old ≡ true) ⊎ (has name_of t.name ts ≡ false)
renamed t old ts h = elim (Bool-cases (equal t.name old)) [
  | inl same ↦ inl same
  | inr other ↦ inr (ground (arith, h, other))
]

module _ {C : Type 0} (b : Codec (List Target) C) (st : Settings) (c : IsCodec b) where
  abbrev pub IsGood : Files C → Type 0
  IsGood w = Holds (IsRegistry st) b [] w.registry

  -- the rest of an operation, behind a step
  continue-IsGood :
      {A B : Type 0} (v : Result A × Files C) (f : A → Exec (Files C) B)
      → IsGood v.1
      → ((a : A) → v.0 ≡ ok a → IsGood (f a v.1).1)
      → IsGood (continue v f).1
  continue-IsGood (ok a, s) f h k = k a refl
  continue-IsGood (err e, s) f h k = h

  require-IsGood : (x : Bool) (e : Error) (w : Files C) → IsGood w → IsGood (require x e w).1
  require-IsGood true e w h = h
  require-IsGood false e w h = h

  checked-IsGood : (p : Option Error) (w : Files C) → IsGood w → IsGood (checked p w).1
  checked-IsGood none w h = h
  checked-IsGood (some e) w h = elim (Bool-cases (is_reload_failed e)) [
    | inl x ↦ simp x h
    | inr x ↦ simp x h
  ]

  answered-IsGood : (p : Option Error) (w : Files C) → IsGood w → IsGood (answered p w).1
  answered-IsGood none w h = h
  answered-IsGood (some e) w h = h

  attempted-IsGood : (v : Result (Unit {0}) × Files C) → IsGood v.1 → IsGood (attempted v).1
  attempted-IsGood (ok a, s) h = h
  attempted-IsGood (err e, s) h = h

  save-IsGood :
      (ts : List Target) (w : Files C)
      → IsGood w
      → IsSavable st ts
      → IsGood (on_registry (save b ts) w).1
  unfolding save
  save-IsGood ts w h v =
      save-Holds b [] (IsRegistry st) c (sort name_of ts) w.registry h (sort-IsRegistry st ts v)

  -- what a step on the routes answers does not touch the registry
  dropped-IsGood :
      (e : Error) (w : Files C) (v : Result (Unit {0}) × Dir)
      → IsGood w
      → IsGood (continue {B = Unit {0}} (attempted (on_routes_done w v)) (λ _ s. fail e s)).1
  dropped-IsGood e w (ok a, d) h = h
  dropped-IsGood e w (err x, d) h = h

  routes-IsGood :
      {A : Type 0} (w : Files C) (v : Result A × Dir) → IsGood w → IsGood (on_routes_done w v).1
  routes-IsGood w (r, d) h = h

  roll_back-IsGood :
      (sys : System) (t : Target) (e : Error) (w : Files C)
      → IsGood w
      → IsGood (roll_back b sys t e w).1
  unfolding roll_back
  roll_back-IsGood sys t e w h = elim (Bool-cases (uses_app_route t)) [
    | inl x ↦ simp x (dropped-IsGood e w (AppRoutes.delete sys t.name w.routes) h)
    | inr x ↦ simp x h
  ]

  finish_create-IsGood :
      (sys : System) (t : Target) (p q : Option Error) (w : Files C)
      → IsGood w
      → IsGood (finish_create b sys t p q w).1
  unfolding finish_create
  finish_create-IsGood sys t p none w h = answered-IsGood p w h
  finish_create-IsGood sys t p (some e) w h = roll_back-IsGood sys t e w h

  register-IsGood :
      (sys : System) (t : Target) (targets : List Target) (p : Option Error) (w : Files C)
      → IsSavable st (targets ++ t ∷ [])
      → IsGood w
      → IsGood (register b sys t targets p w).1
  unfolding register
  register-IsGood sys t targets p w v h =
      continue-IsGood (checked p w) _ (checked-IsGood p w h) (λ a q.
        let saved =
          attempted-IsGood (on_registry (save b (targets ++ t ∷ [])) (checked p w).1)
            (save-IsGood (targets ++ t ∷ []) (checked p w).1 (checked-IsGood p w h) v) in
        continue-IsGood (attempted (on_registry (save b (targets ++ t ∷ [])) (checked p w).1)) _
          saved (λ o e. finish_create-IsGood sys t p o _ saved))

  -- the end of an edit: the error of the route may stop it, or the list is saved
  saved-IsGood :
      (ts : List Target) (p : Option Error) (w : Files C)
      → IsGood w
      → IsSavable st ts
      → IsGood
          (continue (checked p w) (λ _ s. continue (on_registry (save b ts) s) (λ _. answered p))).1
  saved-IsGood ts p w h v = continue-IsGood (checked p w) _ (checked-IsGood p w h) (λ a q.
      let saved = save-IsGood ts (checked p w).1 (checked-IsGood p w h) v in
      continue-IsGood (on_registry (save b ts) (checked p w).1) _ saved
        (λ _ e. answered-IsGood p _ saved))

  loaded :
      (w : Files C) (ts : List Target) → IsGood w → (load b w.registry).0 ≡ ok ts → IsRegistry st ts
  unfolding load Document.load
  loaded w ts h e = h ts (held-read_from b [] w.registry ts e)

  pub create-IsGood :
      (sys : System) (t : Target) (w : Files C) → IsGood w → IsGood (create b sys st t w).1
  unfolding create load Document.load
  create-IsGood sys t w h = continue-IsGood (lift (validate st t) w) _ h λ a c.
      continue-IsGood (on_registry (load b) w) _ h λ targets l.
        let old = loaded w targets h l in
        let q : Bool = not (has name_of t.name targets) in
        continue-IsGood (require q target_exists w) _ (require-IsGood q target_exists w h)
          λ a' free.
            let w' = (require q target_exists w).1 in
            let valid : IsSavable st (targets ++ t ∷ []) = record {
              checked =
                  All-append (λ x. validate st x ≡ ok tt) targets (t ∷ []) old.checked (c, tt);
              names =
                  distinct-append name_of targets t old.names
                    (not-eq-true _ (require-true q target_exists w free));
            } in
            let h' = attempted-IsGood (on_routes (create_route sys st t) w') (
              routes-IsGood w' (create_route sys st t w'.routes)
                (require-IsGood q target_exists w h)) in
            continue-IsGood (attempted (on_routes (create_route sys st t) w')) _ h'
              (λ p e. register-IsGood sys t targets p _ valid h')

  pub update-IsGood :
      (sys : System) (old : Bytes) (t : Target) (w : Files C)
      → IsGood w
      → IsGood (update b sys st old t w).1
  unfolding update load Document.load
  update-IsGood sys old t w h = continue-IsGood (lift (validate st t) w) _ h λ a c.
      continue-IsGood (on_registry (load b) w) _ h λ targets l.
        let was = loaded w targets h l in
        continue-IsGood (lift (found (find name_of old targets)) w) _ h λ stored k.
          let q : Bool = equal t.name old || not (has name_of t.name targets) in
          let h1 = require-IsGood q target_exists w h in
          continue-IsGood (require q target_exists w) _ h1 λ a' free.
            let valid : IsSavable st (replace name_of old t targets) = record {
              checked =
                  All-replace name_of (λ x. validate st x ≡ ok tt) old t targets c was.checked;
              names =
                  distinct-rename name_of old t targets
                    (renamed t old targets (require-true q target_exists w free)) was.names;
            } in
            let w1 : Files C = (require q target_exists w).1 in
            let r : Result (Option Error) × Dir =
              carry_route sys st old (uses_app_route stored) (uses_app_route t) t w1.routes in
            let h2 = routes-IsGood w1 r h1 in
            continue-IsGood (on_routes_done w1 r) _ h2
              (λ p e. saved-IsGood (replace name_of old t targets) p _ h2 valid)

  pub delete-IsGood :
      (sys : System) (name : Bytes) (w : Files C) → IsGood w → IsGood (delete b sys name w).1
  unfolding delete load Document.load
  delete-IsGood sys name w h = continue-IsGood (on_registry (load b) w) _ h λ targets l.
      let was = loaded w targets h l in
      continue-IsGood (lift (found (find name_of name targets)) w) _ h λ stored k.
        let valid : IsSavable st (remove_first name_of name targets) = record {
          checked = All-remove_first name_of (λ x. validate st x ≡ ok tt) name targets was.checked;
          names = distinct-remove_first name_of name targets was.names;
        } in
        let r : Result (Option Error) × Dir =
          (if uses_app_route stored then attempt (AppRoutes.delete sys name) else pure none)
            w.routes in
        let h2 = routes-IsGood w r h in
        continue-IsGood (on_routes_done w r) _ h2
          (λ p e. saved-IsGood (remove_first name_of name targets) (unless_missing p) _ h2 valid)
