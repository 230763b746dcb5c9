-- ===== src/Tests/Users.antt =====
-- The users of the forward-auth server, over a file that holds the list itself.
use mathlib.Core.Option.{some-injective}
use router_docker.Prelude.{◌≡◌, refl, true, none, some, List, [], ◌∷◌, ◌++◌, All, subst}
use router_docker.Text.{codes}
use router_docker.Text.Lines.{lacks}
use router_docker.TinyauthUsers.{User, Backend, add_user, render_env_file}
use router_docker.TinyauthUsers.Shell.{
  IsPlainUser, with_hashes, read_env_file, read_env_file-render_env_file,
}
use router_docker.TinyauthUsers.Unique.{unique_names, IsValid}
use router_docker.TinyauthUsers.Invariant.{
  HoldsValid, IsBackend, begin, added, UserCalls-HoldsValid,
}

abbrev backend : Backend (List User)
backend = record {
  marshal = λ us. us;
  unmarshal = λ us. some us;
  read_ok = true;
  write_ok = true;
  bcrypt = λ p. some (codes "$2a$10$" ++ p);
}

abbrev backend-IsBackend : IsBackend backend
backend-IsBackend = record { unmarshal-marshal = λ _. refl }

no_file-HoldsValid : HoldsValid backend none
no_file-HoldsValid us h =
    subst IsValid (some-injective _ _ h)
      (record { checked = tt; distinct = unfold unique_names in refl })

UserCalls-HoldsValid_example :
    HoldsValid backend
      (add_user
        (record backend { read_ok = true; write_ok = true })
        (codes "ann")
        (codes "pw")
        none).1
UserCalls-HoldsValid_example =
    UserCalls-HoldsValid backend-IsBackend no_file-HoldsValid
      (added true true (codes "ann") (codes "pw") begin)

-- a quote in a hash, and a user without one
abbrev users : List User
users =
    record { name = codes "ann"; password_hash = codes "$2a$10$o'x" }
    ∷ record { name = codes "bob"; password_hash = [] }
    ∷ []

users-plain : All IsPlainUser users
unfolding lacks
users-plain = ((refl, refl, refl), ((refl, refl, refl), tt))

read_env_file-render_env_file_example :
    read_env_file (render_env_file users) ≡ some (with_hashes users)
read_env_file-render_env_file_example = read_env_file-render_env_file users users-plain
