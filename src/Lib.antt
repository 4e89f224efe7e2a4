-- ===== src/Lib.antt =====
-- The GoLink URL shortener: a Go server that redirects short names to targets. Links are stored in
-- an SQL database behind a cache, and are managed by a REST API and by web forms.
--
-- The parts, and the files that model them (paths from the root of the repository):
--
-- Links models internal/links: Links/Validate the validation of names and targets, Links/Domains
-- the domain patterns of advanced links, Links/QuickName the random names. Links/Target and
-- Links/Hosts hold proofs.
--
-- Redirect models internal/redirect: Redirect/Parse splits a request path, Redirect/Simple appends
-- path and query to a target, Redirect/Advanced executes templates. Redirect/Paths and
-- Redirect/Safety hold proofs.
--
-- Db models internal/db. Db/Models are the rows of models.go. Db/Sql is the database as the
-- drivers present it: tables, statements that may fail (a list says which), transactions that
-- commit or roll back. Db/LinkRepo, Db/Listing, Db/Order and Db/Search are the methods of
-- SQLLinkRepo of link_repo.go; Db/Repo is the interface LinkRepo and its SQL implementation;
-- Db/Cache is CachingLinkRepo of cache.go over any such repository; Db/ApiKeyRepo is
-- apikey_repo.go, Db/UserRepo user_repo.go, Db/UseCounter usecounter.go, and Db/Open the choice of
-- the driver and the placeholders of open.go. The proofs are in Db/Found (what a search finds),
-- Db/Selected, Db/Ordered and Db/ByName (what a list selects, and in which order), Db/Keeps,
-- Db/Distinct, Db/Invariant and Db/Histories (well-formed tables), Db/Inversion, Db/SetAlias and
-- Db/AliasLimit (the transaction of SetAlias), Db/Lookups, Db/Coherence, Db/CacheWrites and
-- Db/CacheCalls (the cache), and Db/UseTotals (the counter, as steps of handlers and of the
-- flushing goroutine that interleave).
--
-- Config models internal/config/config.go: the settings, applyDefaults and validate; Config/Load
-- is Load, with the secrets that the environment holds. Config/Defaults and Config/Accepted hold
-- proofs.
--
-- Server models internal/server and the parts of internal/auth that it uses. A handler is a
-- function from a state to an early response or a value, and the state after it (Server/Handler);
-- it takes the repository as an argument. Server/Json is json.go, Server/Net the forwarded and
-- canonical addresses (middleware/realip.go, middleware/domain.go, auth/cidr.go), Server/Access
-- the access checks, Server/Actions link_actions.go, Server/Api and Server/ApiKeys the handlers of
-- api.go and reassign_api.go, Server/Redirects redirect.go, Server/Ui the form handlers of ui.go,
-- Server/Import import.go, Server/Export export.go, Server/Middleware the guards of
-- auth/middleware.go and apikey.go, Server/Routes the REST routes of server.go with their guards,
-- Server/Canonical the redirect to the canonical address, Server/PageRoutes the other routes of
-- server.go with theirs, Server/Providers the middlewares of internal/auth that establish an
-- identity and the destination after a login, Server/Login the login, the callback, the session
-- and the logout of oidc.go with the cookies of Server/Cookies, Server/Paging the paging helpers.
-- A page is the data that its handler hands to the template: Server/Pages is what the pages of
-- ui.go share, Server/ListPages the landing page and the lists, Server/DetailsPage and
-- Server/NewLink the creation and the details of a link there, Server/AdminPages apikeys_ui.go,
-- importexport_ui.go and reassign_ui.go, and Server/Rendering the functions of
-- internal/templates/renderer.go that templates call, with the answers of fixed content.
-- Server/Targets, Server/Sent, Server/Authorised, Server/Forms, Server/AliasForm, Server/Saved,
-- Server/AdminForms, Server/Steps, Server/Resolved, Server/Created, Server/Shown, Server/Visitors,
-- Server/Restored, Server/Importable and Server/RoundTrip (the import of an export),
-- Server/Reassigned, Server/Reserved, Server/Verified and Server/Session hold proofs.
--
-- Base has what the parts share: texts as lists of code points, tests, results, lemmas on lists.
-- Tests runs the definitions at concrete inputs.
--
-- A request passes the guards and reaches a handler; the handler calls the repository, which is
-- the cache over the SQL repository; a redirect counts a use, which the counter writes to the
-- database later, behind the back of the cache.
--
-- Bounds: the loops are recursion on lists, but for the export, whose fuel bounds the number of
-- pages; one page more than there are links is enough, since each page but the last has a link.
-- Integers are natural numbers: ids, counts and times never wrap in the program's range, page
-- numbers are so low that an offset fits an int, and settings below 0 are not modelled. Text is a
-- list of code points (the length of a secret is that of its UTF-8 bytes), and lower case is that
-- of ASCII letters, whereas strings.ToLower and strings.EqualFold know all of Unicode.
--
-- Parameters: net/url, regexp, text/template, net, the LRU cache and the parsing of durations and
-- network ranges are arguments of the definitions that use them, and so are the JWT library, the
-- OIDC provider with its client packages, the TOML decoder and the environment; texts that are
-- generated at random (CSRF tokens, keys, states) are arguments too. Of these the cache and the
-- JWT library have laws. IsCache: a lookup finds nothing but what was added for the name and not
-- removed since. IsJwt: a token that was signed with a secret is accepted with that secret, with
-- the claims that were signed, until it expires.
--
-- Not modelled: the database drivers and migrations, the wording of some error messages, HTML
-- templates and static files, logging, the matching of route patterns by chi, the asynchronous
-- upsert of users, and the start and the stop of the process.
pub mod Base
pub mod Links
pub mod Redirect
pub mod Db
pub mod Config
pub mod Server
pub mod Tests
