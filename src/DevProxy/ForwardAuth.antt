-- ===== src/DevProxy/ForwardAuth.antt =====
-- backend/internal/devproxy/forwardauth.go: the tinyauth block of a fragment, and the line that
-- strips tinyauth's cookies. `body[i:]` is the list of the lines from `i` on, so "the index past
-- the block" is the rest of that list.
use router_docker.Prelude.{Option, none, some, List, [], ◌∷◌, ◌++◌, true, false}
use router_docker.Text.{Bytes, codes, equal, join}

abbrev pub tinyauth_target : Bytes
tinyauth_target = codes "127.0.0.1:3000"

abbrev pub tinyauth_verify_uri : Bytes
tinyauth_verify_uri = codes "/api/auth/caddy"

abbrev pub tinyauth_location_header : Bytes
tinyauth_location_header = codes "X-Tinyauth-Location"

unfoldable pub legacy_forward_auth_block : Bytes → List Bytes
legacy_forward_auth_block indent =
    (indent ++ (codes "forward_auth " ++ (tinyauth_target ++ codes " {")))
    ∷ (indent ++ (codes "\turi " ++ tinyauth_verify_uri))
    ∷ (indent ++ codes "}")
    ∷ []

unfoldable pub forward_auth_block : Bytes → List Bytes
forward_auth_block indent =
    (indent ++ (codes "forward_auth " ++ (tinyauth_target ++ codes " {")))
    ∷ (indent ++ (codes "\turi " ++ tinyauth_verify_uri))
    ∷ (indent ++ codes "\theader_up X-Forwarded-Uri {http.request.orig_uri}")
    ∷ (indent ++ codes "\theader_up X-Forwarded-Host {http.request.host}")
    ∷ (indent ++ codes "\theader_up X-Forwarded-Proto {http.request.header.X-Forwarded-Proto}")
    ∷ (indent ++ codes "\t@tinyauth_login {")
    ∷ (indent ++ codes "\t\tstatus 4xx")
    ∷ (indent ++ (codes "\t\theader " ++ (tinyauth_location_header ++ codes " *")))
    ∷ (indent ++ codes "\t}")
    ∷ (indent ++ codes "\thandle_response @tinyauth_login {")
    ∷ (indent ++ (codes "\t\tredir * {rp.header." ++ (tinyauth_location_header ++ codes "}")))
    ∷ (indent ++ codes "\t}")
    ∷ (indent ++ codes "}")
    ∷ []

unfoldable pub render_forward_auth : Bytes → Bytes
unfolding forward_auth_block join
render_forward_auth indent = join b'\n' (forward_auth_block indent) ++ b'\n' ∷ []

-- `matchLines(body, i, want)`, with the lines past the match
unfoldable pub match_lines : List Bytes → List Bytes → Option (List Bytes)
match_lines body [] = some body
match_lines [] (w ∷ want) = none
match_lines (l ∷ body) (w ∷ want) = elim (equal l w) [ true ↦ match_lines body want | false ↦ none ]

abbrev pub or_else {ℓ} : {A : Type ℓ} → Option A → Option A → Option A
or_else none o = o
or_else (some a) o = some a

-- `MatchForwardAuth`: the current block first, then the legacy one
unfoldable pub match_forward_auth : List Bytes → Bytes → Option (List Bytes)
unfolding match_lines forward_auth_block legacy_forward_auth_block
match_forward_auth body indent =
    or_else (match_lines body (forward_auth_block indent))
      (match_lines body (legacy_forward_auth_block indent))

abbrev pub strip_tinyauth_cookies : Bytes
strip_tinyauth_cookies = codes "header_up Cookie \"tinyauth-[^=;]*=[^;]*(; )?\" \"\""
