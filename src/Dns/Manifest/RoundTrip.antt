-- ===== src/Dns/Manifest/RoundTrip.antt =====
-- A manifest that was read can be saved and read again.
use mathlib.Core.List.{append_assoc}
use router_docker.Prelude.{
  ◌≡◌, refl, sym, ap, ◌∙◌, inl, inr, true, false, ◌||◌, some, List, [], ◌∷◌, ◌++◌, if◌then◌else◌,
  is_empty, All, subst, arith, Bool-cases, Option-cases,
}
use router_docker.Text.{Bytes, equal, cut, split}
use router_docker.Text.Laws.{equal_iff}
use router_docker.Text.Lines.{lacks, lacks-append, lacks_left, lacks_right, split-lacks, split-All}
use router_docker.Text.Cut.{cut-append, cut-eq-some}
use router_docker.Keyed.{has, distinct}
use router_docker.Fragments.Files.{lookup, put, lookup-put}
use router_docker.Dns.Manifest.{Manifest, with_entry, entries, parse_manifest, render_manifest}

abbrev pub name_of : Bytes × Bytes → Bytes
name_of p = p.0

-- a name and a hash that make up one line
pub record IsEntry (p : Bytes × Bytes) : Type 0 where
  pub named : is_empty p.0 ≡ false
  pub name_field : lacks b'\t' p.0 ≡ true
  pub name_line : lacks b'\n' p.0 ≡ true
  pub hash_line : lacks b'\n' p.1 ≡ true

pub record IsManifest (m : Manifest) : Type 0 where
  pub entries : All IsEntry m
  pub names : distinct name_of m ≡ true

-- the assignments `m[name] = hash` of the loop
abbrev puts : Manifest → Manifest → Manifest
puts acc [] = acc
puts acc ((n, h) ∷ m) = puts (put n h acc) m

rendered_line :
    (n h : Bytes) (m : Manifest)
    → render_manifest ((n, h) ∷ m) ≡ (n ++ (b'\t' ∷ h)) ++ (b'\n' ∷ render_manifest m)
unfolding render_manifest
rendered_line n h m = sym (append_assoc n (b'\t' ∷ h) (b'\n' ∷ render_manifest m))

tab_lacks : (h : Bytes) → lacks b'\n' h ≡ true → lacks b'\n' (b'\t' ∷ h) ≡ true
unfolding lacks
tab_lacks h a = a

lacks_tab : (h : Bytes) → lacks b'\n' (b'\t' ∷ h) ≡ true → lacks b'\n' h ≡ true
unfolding lacks
lacks_tab h a = a

entries-line :
    (acc : Manifest) (n h : Bytes) (ls : List Bytes)
    → IsEntry (n, h)
    → entries acc ((n ++ (b'\t' ∷ h)) ∷ ls) ≡ entries (put n h acc) ls
unfolding entries
entries-line acc n h ls e =
    ap (λ o. entries (with_entry o acc) ls) (cut-append b'\t' n h e.name_field)
    ∙ ap (λ x. entries x ls) (rw e.named refl)

entries-render :
    (acc m : Manifest) → All IsEntry m → entries acc (split b'\n' (render_manifest m)) ≡ puts acc m
entries-render acc [] a =
    unfold render_manifest in unfold split in unfold entries in unfold cut in refl
entries-render acc ((n, h) ∷ m) a =
    let line : lacks b'\n' (n ++ (b'\t' ∷ h)) ≡ true =
      lacks-append b'\n' n (b'\t' ∷ h) a.0.name_line (tab_lacks h a.0.hash_line) in
    ap (λ r. entries acc (split b'\n' r)) (rendered_line n h m)
    ∙ ap (entries acc) (split-lacks b'\n' (n ++ (b'\t' ∷ h)) (render_manifest m) line)
    ∙ entries-line acc n h (split b'\n' (render_manifest m)) a.0
    ∙ entries-render (put n h acc) m a.1

lookup-puts :
    (k : Bytes) (acc m : Manifest)
    → distinct name_of m ≡ true
    → lookup k (puts acc m) ≡ (if has name_of k m then lookup k m else lookup k acc)
unfolding has distinct lookup
lookup-puts k acc [] d = refl
lookup-puts k acc ((n, h) ∷ m) d =
    ground (arith, lookup-puts k (put n h acc) m, lookup-put n k h acc, equal_iff n k)

All-put : (n h : Bytes) (m : Manifest) → IsEntry (n, h) → All IsEntry m → All IsEntry (put n h m)
unfolding put
All-put n h [] e a = (e, tt)
All-put n h ((k, v) ∷ m) e a = elim (Bool-cases (equal k n)) [
  | inl same ↦ rw same (renamed_entry ((equal_iff k n).0 same), a.1)
  | inr other ↦ rw other (a.0, All-put n h m e a.1)
]
  where
    renamed_entry : k ≡ n → IsEntry (k, h)
    renamed_entry q = subst (λ x. IsEntry (x, h)) (sym q) e

has-put :
    (k n h : Bytes) (m : Manifest) → has name_of k (put n h m) ≡ (equal n k || has name_of k m)
unfolding has put
has-put k n h [] = refl
has-put k n h ((j, v) ∷ m) =
    ground (arith, has-put k n h m, equal_iff j n, equal_iff j k, equal_iff n k)

distinct-put :
    (n h : Bytes) (m : Manifest) → distinct name_of m ≡ true → distinct name_of (put n h m) ≡ true
unfolding distinct put
distinct-put n h [] d = unfold has in refl
distinct-put n h ((k, v) ∷ m) d =
    ground (arith, distinct-put n h m, has-put k n h m, equal_iff k n, equal_iff n k)

pub put-IsManifest :
    (n h : Bytes) (m : Manifest) → IsEntry (n, h) → IsManifest m → IsManifest (put n h m)
put-IsManifest n h m e v = record {
  entries = All-put n h m e v.entries;
  names = distinct-put n h m v.names;
}

line_entry :
    (l n h : Bytes)
    → lacks b'\n' l ≡ true
    → is_empty n ≡ false
    → cut b'\t' l ≡ some (n, h)
    → IsEntry (n, h)
line_entry l n h a named e =
    let (q, field) = cut-eq-some b'\t' l n h e in
    let line : lacks b'\n' (n ++ (b'\t' ∷ h)) ≡ true = subst (λ x. lacks b'\n' x ≡ true) q a in
    record {
      named = named;
      name_field = field;
      name_line = lacks_left b'\n' n (b'\t' ∷ h) line;
      hash_line = lacks_tab h (lacks_right b'\n' n (b'\t' ∷ h) line);
    }

with_entry-IsManifest :
    (l : Bytes) (m : Manifest)
    → lacks b'\n' l ≡ true
    → IsManifest m
    → IsManifest (with_entry (cut b'\t' l) m)
with_entry-IsManifest l m a v = elim (Option-cases (cut b'\t' l)) [
  | inl e ↦ rw e v
  | inr ((n, h), e) ↦ rw e (elim (Bool-cases (is_empty n)) [
    | inl bare ↦ rw bare v
    | inr named ↦ rw named (put-IsManifest n h m (line_entry l n h a named e) v)
  ])
]

entries-IsManifest :
    (m : Manifest) (ls : List Bytes)
    → All (λ l. lacks b'\n' l ≡ true) ls
    → IsManifest m
    → IsManifest (entries m ls)
unfolding entries
entries-IsManifest m [] a v = v
entries-IsManifest m (l ∷ ls) a v =
    entries-IsManifest (with_entry (cut b'\t' l) m) ls a.1 (with_entry-IsManifest l m a.0 v)

-- Whatever text was read, the map that comes of it can be written as lines.
pub parse_manifest-IsManifest : (content : Bytes) → IsManifest (parse_manifest content)
unfolding parse_manifest
parse_manifest-IsManifest content =
    entries-IsManifest [] (split b'\n' content) (split-All b'\n' content)
      (record { entries = tt; names = unfold distinct in refl })

known_lookup :
    (k : Bytes) (m : Manifest) → (if has name_of k m then lookup k m else lookup k []) ≡ lookup k m
unfolding has lookup
known_lookup k [] = refl
known_lookup k ((n, h) ∷ m) = ground (arith, known_lookup k m)

-- A rendered manifest is read back: every name has the same hash as before.
pub lookup-parse_manifest :
    (m : Manifest) (k : Bytes)
    → IsManifest m
    → lookup k (parse_manifest (render_manifest m)) ≡ lookup k m
unfolding parse_manifest
lookup-parse_manifest m k v =
    ap (lookup k) (entries-render [] m v.entries) ∙ lookup-puts k [] m v.names ∙ known_lookup k m
