-- ===== src/Fragments/Normalize.antt =====
-- backend/internal/devproxy/normalize.go and backend/internal/approutes/normalize.go: the repair at
-- start-up, which writes each fragment that it can read again. The two loops are the same code.
use router_docker.Prelude.{
  subst, ◌≡◌, refl, ◌∙◌, ap, Bool, true, false, not, ◌&&◌, Option, none, some, List, [], ◌∷◌, arith,
  if◌then◌else◌, Result, ok, err, Bool-cases, Option-cases, inl, inr, and_left, and_right,
}
use router_docker.Text.{Bytes, equal, contains}
use router_docker.Text.Laws.{equal_iff}
use router_docker.Fragments.Files.{Dir, lookup, put, lookup-put}
use router_docker.Fragments.Laws.{IsReliable}
use router_docker.Fragments.{System, write_file}

-- the names that were changed, the error, and the directory
abbrev pub Repair : Type 0
Repair = (List Bytes × Result (Unit {0})) × Dir

-- no name is listed twice
unfoldable pub is_distinct : List Bytes → Bool
is_distinct [] = true
is_distinct (n ∷ ns) = not (contains ns n) && is_distinct ns

module _ (sys : System) {E : Type 0} (parse : Bytes → Bytes → Option E) (render : E → Bytes) where
  abbrev replaced : Bytes → Option E → Option Bytes
  replaced content none = none
  replaced content (some e) = if equal (render e) content then none else some (render e)

  abbrev pending_of : Bytes → Option Bytes → Option Bytes
  pending_of name none = none
  pending_of name (some content) = replaced content (parse name content)

  -- the text that the loop writes for a file, if it writes one
  abbrev pub pending : Bytes → Dir → Option Bytes
  pending name d = if sys.read_ok name then pending_of name (lookup name d) else none

  abbrev prepend : Bytes → Repair → Repair
  prepend name ((changed, r), d) = ((name ∷ changed, r), d)

  -- behind the write of a file: `rest` is the loop over the files that follow
  abbrev pub written : Bytes → (Dir → Repair) → Result (Unit {0}) × Dir → Repair
  written name rest (ok _, d) = prepend name (rest d)
  written name rest (err x, d) = (([], err x), d)

  -- the body of the loop
  abbrev pub step : Bytes → (Dir → Repair) → Option Bytes → Dir → Repair
  step name rest none d = rest d
  step name rest (some text) d = written name rest (write_file sys name text d)

  -- the loop over the names that the directory listed
  unfoldable pub normalize_names : List Bytes → Dir → Repair
  unfolding write_file
  normalize_names [] d = (([], ok tt), d)
  normalize_names (name ∷ names) d = step name (normalize_names names) (pending name d) d

  -- with what `os.ReadDir` answers: no names for a missing directory
  unfoldable pub normalize : Result (List Bytes) → Dir → Repair
  unfolding normalize_names
  normalize (err x) d = (([], err x), d)
  normalize (ok names) d = normalize_names names d

  abbrev pub text_of : Bytes → Option E → Bytes
  text_of content none = content
  text_of content (some e) = render e

  -- what `Render` writes for a text that parses, and any other text as it is
  abbrev pub settled : Bytes → Option Bytes → Option Bytes
  settled name none = none
  settled name (some content) = some (text_of content (parse name content))

  replaced-none : (c : Bytes) (o : Option E) → replaced c o ≡ none → text_of c o ≡ c
  replaced-none c none h = refl
  replaced-none c (some e) h = ground (arith, equal_iff (render e) c)

  replaced-some : (c text : Bytes) (o : Option E) → replaced c o ≡ some text → text_of c o ≡ text
  replaced-some c text none h = cc
  replaced-some c text (some e) h = ground arith

  settled-none : (name : Bytes) (o : Option Bytes) → pending_of name o ≡ none → settled name o ≡ o
  settled-none name none h = refl
  settled-none name (some c) h = ap some (replaced-none c (parse name c) h)

  settled-some :
      (name text : Bytes) (o : Option Bytes)
      → pending_of name o ≡ some text
      → settled name o ≡ some text
  settled-some name text none h = cc
  settled-some name text (some c) h = ap some (replaced-some c text (parse name c) h)

  -- the file `name` behind one turn of the loop, and every other file
  turned : Bytes → Option Bytes → Dir → Dir
  turned name none d = d
  turned name (some text) d = put name text d

  step-turned :
      (name : Bytes) (rest : Dir → Repair) (o : Option Bytes) (d : Dir)
      → IsReliable sys
      → (step name rest o d).1 ≡ (rest (turned name o d)).1
  unfolding turned write_file
  step-turned name rest none d r = refl
  step-turned name rest (some text) d r = rw (r.writes name text) refl

  step-ok :
      (name : Bytes) (rest : Dir → Repair) (o : Option Bytes) (d : Dir)
      → IsReliable sys
      → (step name rest o d).0.1 ≡ (rest (turned name o d)).0.1
  unfolding turned write_file
  step-ok name rest none d r = refl
  step-ok name rest (some text) d r = rw (r.writes name text) refl

  lookup-turned :
      (name j : Bytes) (d : Dir)
      → IsReliable sys
      → lookup j (turned name (pending name d) d)
        ≡ (if equal name j then settled name (lookup name d) else lookup j d)
  unfolding turned
  lookup-turned name j d r =
      rw (r.reads name) (elim (Option-cases (pending_of name (lookup name d))) [
        | inl e ↦ rw e (ground (arith, settled-none name (lookup name d) e, equal_iff name j))
        | inr (text, e) ↦
            rw e
              (ground (arith, settled-some name text (lookup name d) e, lookup-put name j text d))
      ])

  turned_once :
      (name j : Bytes) (names : List Bytes) (d : Dir)
      → not (contains names name) ≡ true
      → (let now : Option Bytes =
            if equal name j then settled name (lookup name d) else lookup j d in
          (if contains names j then settled j now else now)
          ≡ (if contains (name ∷ names) j then settled j (lookup j d) else lookup j d))
  unfolding contains
  turned_once name j names d fresh = elim (Bool-cases (equal name j)) [
    | inr e ↦ rw e refl
    | inl e ↦
        let same = (equal_iff name j).0 e in
        let off : contains names j ≡ false =
          subst (λ (n : Bytes). contains names n ≡ false) same (ground (arith, fresh)) in
        rw e (rw off (ap (λ (n : Bytes). settled n (lookup n d)) same))
  ]

  -- On a system whose reads and writes do not fail, the loop over distinct names settles each file
  -- named, and leaves the other files.
  pub normalize_names-settled :
      (names : List Bytes) (j : Bytes) (d : Dir)
      → IsReliable sys
      → is_distinct names ≡ true
      → ((normalize_names names d).0.1 ≡ ok tt)
        × (lookup j (normalize_names names d).1
            ≡ (if contains names j then settled j (lookup j d) else lookup j d))
  unfolding normalize_names contains is_distinct
  normalize_names-settled [] j d r u = (refl, refl)
  normalize_names-settled (name ∷ names) j d r u =
      let next = turned name (pending name d) d in
      let (fine, same) =
        normalize_names-settled names j next r (and_right (not (contains names name)) _ u) in
      let fresh = and_left (not (contains names name)) (is_distinct names) u in
      (
        step-ok name (normalize_names names) (pending name d) d r ∙ fine,
        ap (lookup j) (step-turned name (normalize_names names) (pending name d) d r)
            ∙ same
            ∙ rw (lookup-turned name j d r) (turned_once name j names d fresh),
      )
