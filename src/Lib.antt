-- ===== src/Lib.antt =====
-- router-manager: the admin backend of the router container (backend/), which edits the configuration
-- of a reverse proxy (Caddy), of the egress firewall and of the password gate in front of its own API.
--
-- The parts, and the files that model them:
--
-- Prelude, Text and Net are shared. A text is the list of its bytes; Text has what the program
-- calls of Go's strings and strconv (equal, cut_prefix, split, trim_space, Quote, Itoa, ParseInt),
-- on ASCII where Go folds case or quotes (Text.Folded describes lower case byte by byte), and Net
-- has net.ParseIP, net.SplitHostPort and net.ParseCIDR. Prelude has the (value, error) results
-- (Outcome, with the errors that callers tell apart), and the operations that change a state and
-- may fail (Exec): a failing one keeps what it had changed.
--
-- TargetGuard is backend/internal/targetguard: Validate, ValidateHost, IsSelfHost. The environment is
-- an argument: the extra hosts, and the value of the variable that opts out of the allowlist.
--
-- DevProxy is backend/internal/devproxy, AppRoutes is backend/internal/approutes: Fragment has
-- Render and parseStructured, Validate the validators, Store the operations Create,
-- UpdateStructured, UpdateRaw and Delete, Normalize the repair at start-up. Both packages keep
-- their fragment files by the same code, which is Fragments: a directory is an association list of
-- names and contents (the part of each file name before `.caddy`), and a System says of each system
-- call and of `caddy adapt` and `caddy reload` whether it succeeds, so that a write may fail, leave
-- a torn file, or be refused by Caddy and rolled back.
--
-- AuthGate is backend/internal/authgate: Attempts has the lockout, Password the argon2id hashes, Token
-- the signed cookies, Gate the state and its operations. The clock is an argument, in nanoseconds;
-- a duration keeps the wrap-around of int64. argon2, HMAC, base64, JSON and the scanning of numbers are
-- parameters (Codec, Signing, Machine) with their documented behaviour as named hypotheses.
--
-- NetGate is backend/internal/netgate: Config has the live file, Outbound the ordered rules and
-- checkV4Backstop, Forwards the port forwards and the bandwidth limits. yaml.v3 is a parameter, and the
-- content of the file is of any type.
--
-- TinyauthUsers is backend/internal/tinyauthusers: the stored users and the line of shell that hands
-- them to the forward-auth server; its Shell has a reader of that line, by the rules of the shell.
--
-- Fragments.Listing is the code that List of both stores shares, and Fragments.RollBack what Delete
-- makes of a fragment that Create just wrote.
--
-- Keyed has lists of entries with a name (the loops that look one up, replace it or drop it) and their
-- order by name; Document has a settings file that is read whole, changed, and written whole, with its
-- encoder as a parameter (Codec) and whether reads and writes work. Tailscale, Vnc and Dns stand on both.
--
-- Tailscale is backend/internal/tailscale: Config has the data of config.yaml and the validators, Global
-- the settings outside the lists, Forwards and Publishes the operations on the two lists, Names what
-- the forwards promise as a map from names, Login the LoginManager of login.go. Login.Reach runs it
-- in a world of numbered processes that may end at any moment and be reaped later. Status has state.go
-- and status.go, over a parameter for what the tailscale binary answers. url.Parse and the environment
-- are arguments.
--
-- Vnc is backend/internal/vnc: Target has the registered targets and validate, Viewer the addresses of
-- the viewer pages with what they use of net/url, Store the operations on the registry file and on the
-- directory of App Routes beside it, which they change by the operations of AppRoutes.Store.
--
-- Dns is backend/internal/dns: System has the files below the state directory by their cleaned
-- paths, Hosts the lists of hosts and their files, Manifest the manifest of reconcile.go, Sources
-- the custom sources and the built-in one, Listing the List of blocklist.go with its duplicates,
-- Query the arguments of dig, CustomHosts customhosts.go and resolver.go. Sources.Path says which
-- path a source's name comes to, and CustomHosts.Reading has a reader of the hosts format. SHA-1,
-- the order in which Go ranges over a map, and dig are parameters; the time that a query takes is
-- left out of its result.
--
-- Fuel: parse_routes of DevProxy.Fragment runs on the number of lines, of which each route takes one
-- at least; decimal runs on the number plus one; parse_groups of Net.Address on the eight groups of an
-- IPv6 address. No other definition has fuel.
--
-- Not modelled: running the caddy, tailscale and dig binaries and supervisord (system calls); the packages
-- atomicfile, vhostpwa, envversionprefs and supervisor; the HTTP handlers; and everything that is not Go (the frontend and the shell scripts).
pub mod Prelude
pub mod Text
pub mod Net
mod Tests
pub mod TargetGuard
pub mod Fragments
pub mod DevProxy
pub mod AppRoutes
pub mod AuthGate
pub mod NetGate
pub mod TinyauthUsers
pub mod Document
pub mod Keyed
pub mod Tailscale
pub mod Vnc
pub mod Dns
