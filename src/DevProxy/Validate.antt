-- ===== src/DevProxy/Validate.antt =====
-- backend/internal/devproxy/devproxy.go: what a name, a host, a path and a target may hold. Each
-- regular expression is a matcher by clauses.
pub mod Lines
use router_docker.Prelude.{
  ℕ, suc, ◌≡◌, Bool, true, false, not, ◌&&◌, ◌||◌, Option, none, some, List, [], ◌∷◌, ◌++◌, all,
  length, leb, ltb, ◌==◌, if◌then◌else◌, is_empty, split_last, Result, ok, err, Error, validation,
  guard, ◌>>=◌, ◌>>◌, for_each,
}
use router_docker.Text.{Bytes, codes, equal, split, cut_prefix, is_lower, is_digit, is_alnum}
use router_docker.DevProxy.Fragment.{Route, Expose}
use router_docker.TargetGuard

abbrev is_label_byte : ℕ → Bool
is_label_byte c = is_lower c || is_digit c

abbrev pub is_inner_byte : ℕ → Bool
is_inner_byte c = is_label_byte c || c == b'-'

-- the group `([a-z0-9-]{0,61}[a-z0-9])?`
label_rest : Option (Bytes × ℕ) → Bool
label_rest none = true
label_rest (some (inner, last)) =
    leb (length inner) 61 && all is_inner_byte inner && is_label_byte last

-- `nameRe`, `^[a-z0-9]([a-z0-9-]{0,61}[a-z0-9])?$`
unfoldable pub is_label : Bytes → Bool
unfolding label_rest
is_label [] = false
is_label (c ∷ s) = is_label_byte c && label_rest (split_last s)

unfoldable pub validate_name : Bytes → Result (Unit {0})
unfolding is_label
validate_name name = guard (is_label name) validation

abbrev is_host_byte : ℕ → Bool
is_host_byte c = is_alnum c || c == b'-'

-- `[a-zA-Z0-9-]+(\.[a-zA-Z0-9-]+)*`
unfoldable pub is_dotted : Bytes → Bool
unfolding split
is_dotted s = all (λ l. not (is_empty l) && all is_host_byte l) (split b'.' s)

-- `hostRe`, `^(\*\.)?[a-zA-Z0-9-]+(\.[a-zA-Z0-9-]+)*$`
unfoldable pub is_host : Bytes → Bool
unfolding is_dotted cut_prefix
is_host s = is_dotted s || elim (cut_prefix s (codes "*.")) [ some r ↦ is_dotted r | none ↦ false ]

unfoldable pub validate_host : Bytes → Result (Unit {0})
unfolding is_host
validate_host host = guard (is_host host) validation

-- `pathLikeRe`, `^[a-zA-Z0-9_.\-/*]*$`
abbrev is_path_byte : ℕ → Bool
is_path_byte c = is_alnum c || c == b'_' || c == b'.' || c == b'-' || c == b'/' || c == b'*'

unfoldable pub validate_path_like : Bytes → Result (Unit {0})
validate_path_like value = guard (all is_path_byte value) validation

-- What the process reads from its environment once: the extra hosts, and the opt-out variable.
pub record Settings : Type 0 where
  pub allowed : List Bytes
  pub external : Option Bytes

unfoldable pub validate_target : Settings → Bytes → Result (Unit {0})
validate_target st target = TargetGuard.validate target st.allowed st.external

unfoldable pub validate_route : Settings → Route → Result (Unit {0})
unfolding validate_path_like validate_target equal
validate_route st rt = do
  validate_path_like rt.path
  validate_target st rt.target
  validate_path_like rt.strip_prefix
  validate_path_like rt.rewrite_prefix
  guard (equal rt.mode (codes "route") || equal rt.mode (codes "handle")) validation

unfoldable pub validate_expose : Settings → Expose → Result (Unit {0})
unfolding validate_name validate_host validate_route
validate_expose st e = do
  validate_name e.name
  validate_host e.host
  for_each (validate_route st) e.routes
