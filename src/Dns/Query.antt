-- ===== src/Dns/Query.antt =====
-- backend/internal/dns/query.go: the arguments that a query hands to `dig`. What `dig` answers is a
-- parameter.
pub mod Safe
use router_docker.Prelude.{
  ℕ, ◌+◌, ◌-◌, Bool, true, false, not, ◌&&◌, ◌||◌, Option, none, some, List, [], ◌∷◌, ◌++◌, map,
  all, ◌==◌, if◌then◌else◌, is_empty, split_last, Result, ok, err, guard, io, empty_domain,
  invalid_domain, invalid_query_type, ◌>>=◌, ◌>>◌,
}
use router_docker.Text.{
  Bytes, codes, equal, contains, is_alnum, is_lower, split, trim_space, trim_suffix,
}

abbrev pub is_label_byte : ℕ → Bool
is_label_byte c = is_alnum c || c == b'_'

label_rest : Option (Bytes × ℕ) → Bool
label_rest none = true
label_rest (some (inner, last)) =
    all (λ c. is_label_byte c || c == b'-') inner && is_label_byte last

-- `[A-Za-z0-9_](?:[A-Za-z0-9_-]*[A-Za-z0-9_])?`
unfoldable pub is_dns_label : Bytes → Bool
unfolding label_rest
is_dns_label [] = false
is_dns_label (c ∷ s) = is_label_byte c && label_rest (split_last s)

-- `domainPattern`: labels between dots, and perhaps a dot behind the last
unfoldable pub is_domain : Bytes → Bool
is_domain s = all is_dns_label (split b'.' (trim_suffix s (codes ".")))

abbrev pub query_types : List Bytes
query_types =
    codes "A"
    ∷ (codes "AAAA"
        ∷ (codes "CNAME"
            ∷ (codes "MX"
                ∷ (codes "TXT"
                    ∷ (codes "NS"
                        ∷ (codes "SOA" ∷ (codes "PTR" ∷ (codes "SRV" ∷ (codes "ANY" ∷ [])))))))))

abbrev pub all_types : List Bytes
all_types =
    codes "A"
    ∷ (codes "AAAA"
        ∷ (codes "CNAME"
            ∷ (codes "MX" ∷ (codes "TXT" ∷ (codes "NS" ∷ (codes "SOA" ∷ (codes "SRV" ∷ [])))))))

upper : ℕ → ℕ
upper c = if is_lower c then c - 32 else c

-- `strings.ToUpper` on ASCII
unfoldable pub to_upper : Bytes → Bytes
unfolding upper
to_upper = map upper

-- the type that is asked for, "A" where none is given
unfoldable pub query_type : Bytes → Bytes
unfolding to_upper trim_space
query_type t = let u = to_upper (trim_space t) in if is_empty u then codes "A" else u

abbrev pub fixed_args : List Bytes
fixed_args =
    codes "+noall"
    ∷ (codes "+answer" ∷ (codes "+comments" ∷ (codes "+stats" ∷ (codes "@127.0.0.1" ∷ []))))

abbrev pub pairs_for : Bytes → List Bytes → List Bytes
pairs_for domain [] = []
pairs_for domain (t ∷ ts) = domain ∷ (t ∷ pairs_for domain ts)

unfoldable pub lookup_args : Bytes → Bytes → List Bytes
unfolding equal
lookup_args domain t =
    if equal t (codes "ALL") then pairs_for domain all_types else pairs_for domain (t ∷ [])

-- the arguments of `dig`, or why there is no query
unfoldable pub query_args : Bytes → Bytes → Result (List Bytes)
query_args domain record_type = do
  guard (not (is_empty (trim_space domain))) empty_domain
  guard (is_domain (trim_space domain)) invalid_domain
  guard
      (equal (query_type record_type) (codes "ALL")
        || contains query_types (query_type record_type))
      invalid_query_type
  ok (fixed_args ++ lookup_args (trim_space domain) (query_type record_type))

pub record QueryResult : Type 0 where
  pub domain : Bytes
  pub record_type : Bytes
  pub output : Bytes

-- whether the run failed, and its output
abbrev answer : Bytes → Bytes → Bool × Bytes → Result QueryResult
answer domain t (failed, output) =
    if failed && is_empty (trim_space output)
    then err io
    else ok (record { domain = domain; record_type = t; output = output })

-- `dig` is none where the binary is not found
unfoldable pub query : Option (List Bytes → Bool × Bytes) → Bytes → Bytes → Result QueryResult
unfolding query_args
query none domain record_type = do args ← query_args domain record_type; err io
query (some dig) domain record_type = do
  args ← query_args domain record_type
  answer (trim_space domain) (query_type record_type) (dig args)
