-- ===== src/AppRoutes/Fragment/RoundTrip.antt =====
-- `parseStructured` reads back what `Render` writes.
use mathlib.Core.List.{append_assoc}
use router_docker.Prelude.{
  ◌≡◌, refl, sym, ap, ◌∙◌, Bool, Bool-cases, inl, inr, true, false, some, List, [], ◌∷◌, ◌++◌, All,
  All-append, if◌then◌else◌, is_empty, split_last-append,
}
use router_docker.Text.{
  Bytes, codes, equal, trim_blank, trim_space, has_prefix, has_suffix, trim_prefix, trim_suffix,
}
use router_docker.Text.Laws.{equal_refl, cut_suffix-append}
use router_docker.Text.Lines.{
  lacks, IsLine, unlines, lacks-append, split-unlines, unlines-append, trim_blank-append,
  All-IsLine, IsLine-framed,
}
use router_docker.Text.Quote.{quote, quote-IsLine}
use router_docker.DevProxy.ForwardAuth.{
  match_forward_auth, forward_auth_block, render_forward_auth, strip_tinyauth_cookies,
}
use router_docker.DevProxy.Fragment.Lines.{line-cons}
use router_docker.DevProxy.Fragment.RoundTrip.{match_lines-append}
use router_docker.DevProxy.Fragment.{line}
use router_docker.AppRoutes.Fragment.{
  App, location_rewrite_search, location_rewrite_replace, header_line, header_down, render,
  parse_auth, parse_target, expect, skip, parse_body, parse_lines, parse_structured,
}

pub record IsRenderable (a : App) : Type 0 where
  pub name_line : IsLine a.name
  pub target_line : IsLine a.target

abbrev auth_lines : Bool → List Bytes
auth_lines b = if b then forward_auth_block (codes "\t") else []

abbrev proxy_lines : Bytes → Bytes → List Bytes
proxy_lines name target =
    (codes "\treverse_proxy " ++ (target ++ codes " {"))
    ∷ header_down name
    ∷ (codes "\t\t" ++ strip_tinyauth_cookies)
    ∷ codes "\t}"
    ∷ []

abbrev body_lines : App → List Bytes
body_lines a = auth_lines a.require_auth ++ proxy_lines a.name a.target

abbrev lines_of : App → List Bytes
lines_of a = header_line a.name ∷ (body_lines a ++ codes "}" ∷ [])

unlines-auth_lines :
    (b : Bool) → unlines (auth_lines b) ≡ (if b then render_forward_auth (codes "\t") else [])
unfolding render_forward_auth
unlines-auth_lines true = refl
unlines-auth_lines false = refl

unlines_five :
    (a b c d e : Bytes)
    → unlines (a ∷ b ∷ c ∷ d ∷ e ∷ []) ≡ line a ++ (line b ++ (line c ++ (line d ++ line e)))
unlines_five a b c d e =
    line-cons a (b ∷ c ∷ d ∷ e ∷ [])
    ∙ ap (λ (t : Bytes). line a ++ t)
        (line-cons b (c ∷ d ∷ e ∷ [])
          ∙ ap (λ (t : Bytes). line b ++ t)
              (line-cons c (d ∷ e ∷ []) ∙ ap (λ (t : Bytes). line c ++ t) (line-cons d (e ∷ []))))

unlines_framed :
    (h : Bytes) (ks : List Bytes) (a b c d e : Bytes)
    → unlines (h ∷ ((ks ++ a ∷ b ∷ c ∷ d ∷ []) ++ e ∷ []))
      ≡ line h ++ (unlines ks ++ (line a ++ (line b ++ (line c ++ (line d ++ line e)))))
unlines_framed h ks a b c d e = rw (append_assoc ks (a ∷ b ∷ c ∷ d ∷ []) (e ∷ [])) (
    line-cons h (ks ++ a ∷ b ∷ c ∷ d ∷ e ∷ [])
    ∙ ap (λ (t : Bytes). line h ++ t)
        (unlines-append ks (a ∷ b ∷ c ∷ d ∷ e ∷ [])
          ∙ ap (λ (t : Bytes). unlines ks ++ t) (unlines_five a b c d e)))

-- `Render` writes exactly these lines.
render-lines : (a : App) → render a ≡ unlines (lines_of a)
unfolding render
render-lines a = sym (
    unlines_framed (header_line a.name) (auth_lines a.require_auth)
      (codes "\treverse_proxy " ++ (a.target ++ codes " {")) (header_down a.name)
      (codes "\t\t" ++ strip_tinyauth_cookies) (codes "\t}") (codes "}")
    ∙ rw unlines-auth_lines refl)

match_forward_auth-block :
    (rest : List Bytes)
    → match_forward_auth (forward_auth_block (codes "\t") ++ rest) (codes "\t") ≡ some rest
unfolding match_forward_auth
match_forward_auth-block rest =
    rw (match_lines-append (forward_auth_block (codes "\t")) rest, match_forward_auth) refl

auth_found :
    (rest : List Bytes) → parse_auth (forward_auth_block (codes "\t") ++ rest) ≡ some (true, rest)
auth_found rest = unfold parse_auth in rw (match_forward_auth-block rest, parse_auth) refl

parse_auth-lines :
    (b : Bool) (name target : Bytes)
    → parse_auth (auth_lines b ++ proxy_lines name target) ≡ some (b, proxy_lines name target)
parse_auth-lines true name target = auth_found (proxy_lines name target)
parse_auth-lines false name target = unfold parse_auth equal in refl

parse_target-lines :
    (target : Bytes) (rest : List Bytes)
    → parse_target ((codes "\treverse_proxy " ++ (target ++ codes " {")) ∷ rest)
      ≡ some (target, rest)
unfolding parse_target trim_prefix trim_suffix has_prefix has_suffix
parse_target-lines target rest =
    rw (cut_suffix-append (codes "\treverse_proxy " ++ target) (codes " {"), has_suffix)
      (rw (cut_suffix-append target (codes " {"), trim_suffix) refl)

header_down-IsLine : (name : Bytes) → IsLine (header_down name)
unfolding header_down lacks
header_down-IsLine name =
    IsLine-framed (codes "\t\theader_down Location ") (quote location_rewrite_search)
      (codes " " ++ quote (location_rewrite_replace name)) refl
      (quote-IsLine location_rewrite_search)
      (lacks-append b'\n' (codes " ") (quote (location_rewrite_replace name)) refl
        (quote-IsLine (location_rewrite_replace name)))

auth_lines-IsLine : (b : Bool) → All IsLine (auth_lines b)
unfolding forward_auth_block lacks
auth_lines-IsLine true = All-IsLine (forward_auth_block (codes "\t")) refl
auth_lines-IsLine false = tt

lines_of-IsLine : (a : App) → IsRenderable a → All IsLine (lines_of a)
unfolding lacks
lines_of-IsLine a h = (
  IsLine-framed (codes "handle_path /app/") a.name (codes "/* {") refl h.name_line refl,
  All-append IsLine (body_lines a) (codes "}" ∷ [])
      (All-append IsLine (auth_lines a.require_auth) (proxy_lines a.name a.target)
        (auth_lines-IsLine a.require_auth)
        (
          lacks-append b'\n' a.target (codes " {") h.target_line refl,
          (header_down-IsLine a.name, (refl, (refl, tt))),
        ))
      (refl, tt),
)

lines_of-trimmed : (a : App) → trim_blank (lines_of a ++ [] ∷ []) ≡ lines_of a
lines_of-trimmed a =
    trim_blank-append (header_line a.name ∷ body_lines a) (codes "}") (unfold trim_space in refl)

parse_body-lines : (a : App) → parse_body a.name (body_lines a) ≡ some a
unfolding parse_body expect skip
parse_body-lines a =
    rw (parse_auth-lines a.require_auth a.name a.target, parse_body)
      (rw (parse_target-lines a.target, parse_body)
        (rw (equal_refl (header_down a.name)) (unfold equal in refl)))

body_lines-cons : (a : App) → is_empty (body_lines a) ≡ false
unfolding forward_auth_block
body_lines-cons a = elim (Bool-cases a.require_auth) [ inl e ↦ simp e refl | inr e ↦ simp e refl ]

parse_lines-lines : (a : App) → parse_lines a.name (lines_of a) ≡ some a
unfolding parse_lines
parse_lines-lines a = rw (equal_refl (header_line a.name)) (
    rw (split_last-append (body_lines a) (codes "}"))
      (rw (body_lines-cons a) (unfold equal in parse_body-lines a)))

-- An App Route whose name and target hold no newline is recovered exactly from the text that
-- `Render` writes for it.
pub parse_structured-render :
    (a : App) → IsRenderable a → parse_structured a.name (render a) ≡ some a
unfolding parse_structured
parse_structured-render a h = rw (render-lines a) (
    rw (split-unlines (lines_of a) (lines_of-IsLine a h))
      (rw (lines_of-trimmed a) (parse_lines-lines a)))
