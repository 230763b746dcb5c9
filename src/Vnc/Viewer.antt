-- ===== src/Vnc/Viewer.antt =====
-- backend/internal/vnc/vnc.go: the address of a target's viewer page. net/url is modelled as far as
-- it is used: `PathEscape`, `QueryEscape` and `Values.Encode`.
use router_docker.Prelude.{
  ℕ, ◌+◌, ◌/◌, ◌%◌, Bool, ◌||◌, Option, none, some, List, [], ◌∷◌, ◌++◌, ltb, ◌==◌, if◌then◌else◌,
}
use router_docker.Text.{Bytes, codes, is_alnum}
use router_docker.Keyed.Order.{sort}
use router_docker.Vnc.Target.{
  Target, Backend, rfb, novnc, backend_named, uses_app_route, resize_mode,
}

abbrev is_unreserved : ℕ → Bool
is_unreserved c = is_alnum c || c == b'-' || c == b'_' || c == b'.' || c == b'~'

-- what a path segment leaves as it is
abbrev pub is_segment_byte : ℕ → Bool
is_segment_byte c =
    is_unreserved c || c == b'$' || c == b'&' || c == b'+' || c == b'=' || c == b':' || c == b'@'

hex_digit : ℕ → ℕ
hex_digit n = if ltb n 10 then b'0' + n else 55 + n

unfoldable pub path_escape : Bytes → Bytes
unfolding hex_digit
path_escape [] = []
path_escape (c ∷ s) =
    (if is_segment_byte c then c ∷ [] else b'%' ∷ (hex_digit (c / 16) ∷ (hex_digit (c % 16) ∷ [])))
    ++ path_escape s

unfoldable pub query_escape : Bytes → Bytes
unfolding hex_digit
query_escape [] = []
query_escape (c ∷ s) =
    (if is_unreserved c
      then c ∷ []
      else if c == b' '
      then b'+' ∷ []
      else b'%' ∷ (hex_digit (c / 16) ∷ (hex_digit (c % 16) ∷ [])))
    ++ query_escape s

abbrev joined : List (Bytes × Bytes) → Bytes
joined [] = []
joined ((k, v) ∷ []) = query_escape k ++ (b'=' ∷ query_escape v)
joined ((k, v) ∷ (q ∷ qs)) = query_escape k ++ ((b'=' ∷ query_escape v) ++ (b'&' ∷ joined (q ∷ qs)))

-- `Values.Encode`: the pairs by their keys in order
unfoldable pub encode : List (Bytes × Bytes) → Bytes
unfolding query_escape sort
encode q = joined (sort (λ p. p.0) q)

unfoldable pub novnc_query : Target → List (Bytes × Bytes)
unfolding resize_mode
novnc_query t =
    (codes "autoconnect", codes "1")
    ∷ ((codes "reconnect", codes "1") ∷ ((codes "resize", resize_mode t) ∷ []))

abbrev pub viewer_base_path : Bytes
viewer_base_path = codes "/router/novnc/"

unfoldable pub socket_path : Target → Bytes
unfolding path_escape
socket_path t = codes "../api/vnc/targets/" ++ (path_escape t.name ++ codes "/ws")

unfoldable pub rfb_viewer_path : Target → Bytes
unfolding encode novnc_query socket_path
rfb_viewer_path t =
    viewer_base_path
    ++ (codes "vnc.html?"
        ++ encode (novnc_query t ++ ((codes "host", []) ∷ ((codes "path", socket_path t) ∷ []))))

unfoldable pub app_viewer_path : Target → Bytes
unfolding path_escape encode novnc_query
app_viewer_path t =
    codes "/app/" ++ (path_escape t.name ++ (codes "/vnc.html?" ++ encode (novnc_query t)))

viewer_of : Option Backend → Target → Bytes
unfolding rfb_viewer_path app_viewer_path
viewer_of none t = []
viewer_of (some rfb) t = rfb_viewer_path t
viewer_of (some novnc) t = app_viewer_path t

unfoldable pub viewer_path : Target → Bytes
unfolding viewer_of backend_named
viewer_path t = viewer_of (backend_named t.backend) t

unfoldable pub viewer_origin : Target → Bytes
unfolding uses_app_route
viewer_origin t = if uses_app_route t then codes "app" else codes "self"
