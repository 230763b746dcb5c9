-- ===== src/Dns/Sources/Path.antt =====
-- The path of a custom source, for the names that `ValidateSourceName` accepts.
use router_docker.Prelude.{
  ◌≡◌, refl, sym, ap, ◌∙◌, true, false, [], ◌∷◌, ◌++◌, arith, all, is_empty,
}
use router_docker.Text.{Bytes, codes, equal, split, join, cut_prefix, cut_suffix}
use router_docker.Text.Lines.{lacks, lacks-append}
use mathlib.Core.Option.{some-injective}
use router_docker.Text.Laws.{cut_prefix-append, cut_suffix-append}
use router_docker.DevProxy.Validate.{is_label, is_inner_byte}
use router_docker.DevProxy.Validate.Lines.{is_label-all}
use router_docker.Dns.System.{join_path, cleaned, descend}
use router_docker.Dns.Sources.{sources_dir, custom_path}

-- a file of the directory of sources
abbrev pub file_of : Bytes → Bytes
file_of name = name ++ codes ".hosts"

abbrev pub path_of : Bytes → Bytes
path_of name = sources_dir ++ (codes "/" ++ file_of name)

split_whole : (sep : _) (s : Bytes) → lacks sep s ≡ true → split sep s ≡ s ∷ []
unfolding split lacks
split_whole sep [] h = refl
split_whole sep (c ∷ s) h = ground (arith, split_whole sep s)

split_dir :
    (file : Bytes)
    → split b'/' (sources_dir ++ (b'/' ∷ file))
      ≡ codes ""
        ∷ (codes "var"
            ∷ (codes "lib"
                ∷ (codes "code-docker-router"
                    ∷ (codes "dns" ∷ (codes "blocklist-sources" ∷ split b'/' file)))))
unfolding split
split_dir file = refl

-- an element that is kept on the way
IsKept : Bytes → Type 0
IsKept s = (is_empty s ≡ false) × (equal s (codes ".") ≡ false) × (equal s (codes "..") ≡ false)

cleaned_dir :
    (file : Bytes)
    → IsKept file
    → join b'/' (
        cleaned [] (
          codes ""
          ∷ (codes "var"
              ∷ (codes "lib"
                  ∷ (codes "code-docker-router"
                      ∷ (codes "dns" ∷ (codes "blocklist-sources" ∷ (file ∷ []))))))))
      ≡ codes "var/lib/code-docker-router/dns/blocklist-sources/" ++ file
unfolding IsKept cleaned descend join equal
cleaned_dir file k = simp (k.0, k.1, k.2) refl

-- a file without a slash stands in the directory itself
join_path_of :
    (file : Bytes)
    → lacks b'/' file ≡ true
    → IsKept file
    → join_path sources_dir file ≡ sources_dir ++ (b'/' ∷ file)
unfolding join_path
join_path_of file l k =
    ap (λ ss. b'/' ∷ join b'/' (cleaned [] ss))
      (split_dir file
        ∙ ap
            (λ ss.
              codes ""
              ∷ (codes "var"
                  ∷ (codes "lib"
                      ∷ (codes "code-docker-router"
                          ∷ (codes "dns" ∷ (codes "blocklist-sources" ∷ ss))))))
            (split_whole b'/' file l))
    ∙ ap (λ s. b'/' ∷ s) (cleaned_dir file k)

inner-lacks : (s : Bytes) → all is_inner_byte s ≡ true → lacks b'/' s ≡ true
unfolding lacks
inner-lacks [] h = refl
inner-lacks (c ∷ s) h = ground (arith, inner-lacks s)

pub is_label-lacks : (name : Bytes) → is_label name ≡ true → lacks b'/' name ≡ true
is_label-lacks name h = inner-lacks name (is_label-all name h)

is_label-IsKept : (name : Bytes) → is_label name ≡ true → IsKept (file_of name)
unfolding IsKept equal
is_label-IsKept [] h = absurd (unfold is_label in cc)
is_label-IsKept (c ∷ s) h =
    let bytes : all is_inner_byte (c ∷ s) ≡ true = is_label-all (c ∷ s) h in
    (refl, ground (arith, bytes), ground (arith, bytes))

-- A label is a file of its own.
pub custom_path-is_label : (name : Bytes) → is_label name ≡ true → custom_path name ≡ path_of name
unfolding custom_path
custom_path-is_label name h =
    join_path_of (file_of name)
      (lacks-append b'/' name (codes ".hosts") (is_label-lacks name h) (unfold lacks in refl))
      (is_label-IsKept name h)

cut_front : (p s t : Bytes) → p ++ s ≡ p ++ t → s ≡ t
cut_front p s t e =
    some-injective _ _
      (sym (cut_prefix-append p s) ∙ (ap (λ x. cut_prefix x p) e ∙ cut_prefix-append p t))

cut_back : (s t p : Bytes) → s ++ p ≡ t ++ p → s ≡ t
cut_back s t p e =
    some-injective _ _
      (sym (cut_suffix-append s p) ∙ (ap (λ x. cut_suffix x p) e ∙ cut_suffix-append t p))

-- Two names have two paths.
pub path_of_injective : (a b : Bytes) → path_of a ≡ path_of b → a ≡ b
path_of_injective a b e = cut_back a b (codes ".hosts") (
    cut_front (codes "/") (file_of a) (file_of b)
      (cut_front sources_dir (codes "/" ++ file_of a) (codes "/" ++ file_of b) e))
