-- ===== src/TinyauthUsers/Shell.antt =====
-- The shell line read back, by the rules of the shell and of tinyauth.
use mathlib.Core.Option
use mathlib.Core.List.{append_assoc}
use router_docker.Prelude.{
  ℕ, ◌≡◌, refl, sym, ap, ◌∙◌, true, false, ◌&&◌, Option, none, some, List, [], ◌∷◌, ◌++◌, ◌==◌, All,
  if◌then◌else◌, is_empty, arith, Bool-cases, inl, inr,
}
use router_docker.Text.{Bytes, codes, join, split, cut, cut_prefix}
use router_docker.Text.Laws.{cut_prefix-append}
use router_docker.Text.Integer.{split-last}
use router_docker.Prelude.Maybe.{◌>>=◌}
use router_docker.Text.Lines.{lacks, split-lacks, lacks-append}
use router_docker.Text.Cut.{cut-append}
use router_docker.TinyauthUsers.{User, escape_quotes, shell_quote, pairs_of, render_env_file}

-- where a reader of a word stands: in single quotes, outside, or behind a backslash
pub data Mode : Type 0 where
  quoted outside escaped : Mode

-- How a shell reads a word of single-quoted pieces and escaped bytes, up to the end of the line.
unfoldable pub read_word : Mode → Bytes → Option Bytes
read_word m [] = none
read_word quoted (c ∷ s) =
    if c == b'\'' then read_word outside s else Option.map (λ w. c ∷ w) (read_word quoted s)
read_word escaped (c ∷ s) = Option.map (λ w. c ∷ w) (read_word outside s)
read_word outside (c ∷ s) =
    if c == b'\''
    then read_word quoted s
    else if c == b'\\'
    then read_word escaped s
    else if c == b'\n' && is_empty s
    then some []
    else none

read_word-escape_quotes : (s : Bytes) → read_word quoted (escape_quotes s ++ codes "'\n") ≡ some s
unfolding read_word escape_quotes
read_word-escape_quotes [] = refl
read_word-escape_quotes (c ∷ s) = elim (Bool-cases (c == b'\'')) [
  | inl e ↦
      let same : c ≡ b'\'' = ground arith in
      rw e (rw (read_word-escape_quotes s) (ap (λ (x : ℕ). some (x ∷ s)) (sym same)))
  | inr e ↦ rw e (rw e (rw (read_word-escape_quotes s) refl))
]

-- A shell reads back any text from what `shellQuote` makes of it.
read_word-shell_quote : (s : Bytes) → read_word outside (shell_quote s ++ codes "\n") ≡ some s
unfolding read_word shell_quote
read_word-shell_quote s =
    rw (append_assoc (escape_quotes s) (b'\'' ∷ []) (codes "\n")) (read_word-escape_quotes s)

-- How tinyauth reads the value: users between commas, each a name and a hash around a colon.
read_user : Bytes → Option User
read_user s = elim (cut b':' s) [
  | none ↦ none
  | some (name, hash) ↦ some (record { name = name; password_hash = hash })
]

abbrev cons_user : Option User → Option (List User) → Option (List User)
cons_user (some u) (some us) = some (u ∷ us)
cons_user _ _ = none

read_each : List Bytes → Option (List User)
read_each [] = some []
read_each (p ∷ ps) = cons_user (read_user p) (read_each ps)

-- the users that have a hash
abbrev pub with_hashes : List User → List User
with_hashes [] = []
with_hashes (u ∷ us) = if is_empty u.password_hash then with_hashes us else u ∷ with_hashes us

-- no colon or comma in the name, no comma in the hash
abbrev pub IsPlainUser : User → Type 0
IsPlainUser u =
    (lacks b':' u.name ≡ true) × (lacks b',' u.name ≡ true) × (lacks b',' u.password_hash ≡ true)

read_user-pair :
    (u : User) → lacks b':' u.name ≡ true → read_user (u.name ++ (b':' ∷ u.password_hash)) ≡ some u
unfolding read_user
read_user-pair u h = rw (cut-append b':' u.name u.password_hash h, read_user) refl

read_each-pairs_of :
    (us : List User) → All IsPlainUser us → read_each (pairs_of us) ≡ some (with_hashes us)
unfolding read_each pairs_of
read_each-pairs_of [] h = refl
read_each-pairs_of (u ∷ us) h = elim (Bool-cases (is_empty u.password_hash)) [
  | inl e ↦ simp e (read_each-pairs_of us h.1)
  | inr e ↦ simp e (rw (read_user-pair u h.0.0) (rw (read_each-pairs_of us h.1) refl))
]

-- no piece holds a comma, and none is empty
abbrev IsPiece : Bytes → Type 0
IsPiece p = (lacks b',' p ≡ true) × (is_empty p ≡ false)

middle-cons : (a : Bytes) (c : ℕ) (b : Bytes) → is_empty (a ++ (c ∷ b)) ≡ false
middle-cons [] c b = refl
middle-cons (d ∷ a) c b = refl

pair-IsPiece : (u : User) → IsPlainUser u → IsPiece (u.name ++ (b':' ∷ u.password_hash))
unfolding lacks
pair-IsPiece u (_, name, hash) = (
  lacks-append b',' u.name (b':' ∷ u.password_hash) name hash,
  middle-cons u.name b':' u.password_hash,
)

pairs_of-IsPiece : (us : List User) → All IsPlainUser us → All IsPiece (pairs_of us)
unfolding pairs_of
pairs_of-IsPiece [] h = tt
pairs_of-IsPiece (u ∷ us) h = elim (Bool-cases (is_empty u.password_hash)) [
  | inl e ↦ simp e (pairs_of-IsPiece us h.1)
  | inr e ↦ simp e (pair-IsPiece u h.0, pairs_of-IsPiece us h.1)
]

split-join :
    (p : Bytes) (ps : List Bytes) → All IsPiece (p ∷ ps) → split b',' (join b',' (p ∷ ps)) ≡ p ∷ ps
unfolding join
split-join p [] h = split-last b',' p h.0.0
split-join p (q ∷ ps) h =
    split-lacks b',' p (join b',' (q ∷ ps)) h.0.0
    ∙ ap (λ (r : List Bytes). p ∷ r) (split-join q ps h.1)

join-cons :
    (p : Bytes) (ps : List Bytes) → is_empty p ≡ false → is_empty (join b',' (p ∷ ps)) ≡ false
unfolding join
join-cons [] ps h = cc
join-cons (c ∷ p) [] h = refl
join-cons (c ∷ p) (q ∷ ps) h = refl

-- the value of the variable: nothing for no users
pub read_value : Bytes → Option (List User)
read_value s = if is_empty s then some [] else read_each (split b',' s)

read_value-join : (ps : List Bytes) → All IsPiece ps → read_value (join b',' ps) ≡ read_each ps
unfolding read_value
read_value-join [] h = unfold read_each join in refl
read_value-join (p ∷ ps) h = rw (join-cons p ps h.0.1) (rw (split-join p ps h) refl)

-- what tinyauth gets from the line: the shell's word behind the name of the variable, read as users
unfoldable pub read_env_file : Bytes → Option (List User)
read_env_file content = do
  value ← cut_prefix content (codes "TINYAUTH_AUTH_USERS=")
  word ← read_word outside value
  read_value word

-- When no name holds a colon or a comma and no hash holds a comma, the line that `RenderEnvFile`
-- writes, read by a shell and then as tinyauth's list, gives back exactly the users that have a
-- hash, in order, whatever other bytes the names and hashes hold.
pub read_env_file-render_env_file :
    (us : List User)
    → All IsPlainUser us
    → read_env_file (render_env_file us) ≡ some (with_hashes us)
unfolding read_env_file render_env_file
read_env_file-render_env_file us h =
    let value = join b',' (pairs_of us) in
    rw
      (
        cut_prefix-append (codes "TINYAUTH_AUTH_USERS=") (shell_quote value ++ codes "\n"),
        read_env_file,
      )
      (rw (read_word-shell_quote value)
        (read_value-join (pairs_of us) (pairs_of-IsPiece us h) ∙ read_each-pairs_of us h))
