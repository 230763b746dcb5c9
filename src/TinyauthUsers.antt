-- ===== src/TinyauthUsers.antt =====
-- backend/internal/tinyauthusers/store.go: the users of the forward-auth server, and the shell line
-- that hands them to it. What a file can hold, JSON and bcrypt are parameters.
pub mod Shell
pub mod Unique
pub mod Invariant
use router_docker.Prelude.Exec.{◌>>=◌, ◌>>◌, lift, require}
use router_docker.Prelude.{
  ◌≡◌, Bool, true, false, not, ◌&&◌, ◌||◌, Option, none, some, List, [], ◌∷◌, ◌++◌, ◌==◌, all,
  if◌then◌else◌, is_empty, Result, ok, err, validation, already_exists, not_found, io, guard, ℕ,
}
use router_docker.Prelude.Exec.{Exec, continue}
use router_docker.Text.{Bytes, codes, equal, is_alnum, join}

pub record User : Type 0 where
  pub name : Bytes
  pub password_hash : Bytes

abbrev pub is_name_byte : ℕ → Bool
is_name_byte c = is_alnum c || c == b'_' || c == b'.' || c == b'@' || c == b'-'

-- `nameRe`, `^[A-Za-z0-9_.@-]+$`
unfoldable pub validate_name : Bytes → Result (Unit {0})
validate_name name = guard (not (is_empty name) && all is_name_byte name) validation

-- the quotes doubled out: `'` becomes `'\''`
unfoldable pub escape_quotes : Bytes → Bytes
escape_quotes [] = []
escape_quotes (c ∷ s) = (if c == b'\'' then codes "'\\''" else c ∷ []) ++ escape_quotes s

unfoldable pub shell_quote : Bytes → Bytes
unfolding escape_quotes
shell_quote s = b'\'' ∷ (escape_quotes s ++ (b'\'' ∷ []))

-- the pairs of the users that have a hash
unfoldable pub pairs_of : List User → List Bytes
pairs_of [] = []
pairs_of (u ∷ us) =
    let rest = pairs_of us in
    if is_empty u.password_hash then rest else (u.name ++ (b':' ∷ u.password_hash)) ∷ rest

-- the content that `RenderEnvFile` writes
unfoldable pub render_env_file : List User → Bytes
unfolding pairs_of shell_quote join
render_env_file users =
    codes "TINYAUTH_AUTH_USERS=" ++ (shell_quote (join b',' (pairs_of users)) ++ codes "\n")

unfoldable pub has_user : Bytes → List User → Bool
unfolding equal
has_user name [] = false
has_user name (u ∷ us) = equal u.name name || has_user name us

-- the first user of that name gets the hash
unfoldable pub with_hash : Bytes → Bytes → List User → List User
unfolding equal
with_hash name hash [] = []
with_hash name hash (u ∷ us) =
    let rest = with_hash name hash us in
    if equal u.name name then record u { password_hash = hash } ∷ us else u ∷ rest

unfoldable pub without_user : Bytes → List User → List User
unfolding equal
without_user name [] = []
without_user name (u ∷ us) =
    let rest = without_user name us in if equal u.name name then rest else u ∷ rest

pub record Backend (C : Type 0) : Type 0 where
  pub marshal : List User → C
  pub unmarshal : C → Option (List User)
  pub read_ok : Bool
  pub write_ok : Bool
  -- `bcrypt.GenerateFromPassword`, which refuses a password of more than 72 bytes
  pub bcrypt : Bytes → Option Bytes

module _ {C : Type 0} (b : Backend C) where
  abbrev decoded : Option (List User) → Result (List User)
  decoded none = err io
  decoded (some users) = ok users

  unfoldable pub load_from : Option C → Result (List User)
  load_from none = ok []
  load_from (some content) = if b.read_ok then decoded (b.unmarshal content) else err io

  unfoldable pub load : Exec (Option C) (List User)
  load s = (load_from s, s)

  -- a temporary file and a rename: the old content stays if any step fails
  unfoldable pub save : List User → Exec (Option C) (Unit {0})
  save users s = if b.write_ok then (ok tt, some (b.marshal users)) else (err io, s)

  unfoldable pub hashed : Bytes → Result Bytes
  hashed plaintext = elim (b.bcrypt plaintext) [ none ↦ err io | some h ↦ ok h ]

  unfoldable pub add_user : Bytes → Bytes → Exec (Option C) (Unit {0})
  unfolding validate_name load hashed save has_user
  add_user name plaintext = do
    require (not (is_empty name || is_empty plaintext)) validation
    lift (validate_name name)
    users ← load
    require (not (has_user name users)) already_exists
    hash ← lift (hashed plaintext)
    save (users ++ record { name = name; password_hash = hash } ∷ [])

  unfoldable pub set_password : Bytes → Bytes → Exec (Option C) (Unit {0})
  unfolding load hashed save has_user with_hash
  set_password name plaintext = do
    require (not (is_empty plaintext)) validation
    users ← load
    require (has_user name users) not_found
    hash ← lift (hashed plaintext)
    save (with_hash name hash users)

  unfoldable pub delete_user : Bytes → Exec (Option C) (Unit {0})
  unfolding load save has_user without_user
  delete_user name = do
    users ← load
    require (has_user name users) not_found
    save (without_user name users)
