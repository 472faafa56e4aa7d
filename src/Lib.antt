-- ===== src/Lib.antt =====
-- Verification of the SimpleDeploy server (Go, internal/).
--
-- SimpleDeploy runs docker compose apps on one host behind an embedded Caddy. The parts modelled
-- here, by the file that models them:
--   Proxy/Host       internal/proxy/hostmatch.go: the domain that a request host belongs to
--                    (normalizeDomain, hostMatches, domainLess, lookupHost).
--   Proxy/RateLimit  internal/proxy/ratelimit.go: the limiter of one domain (allow, evictIdle). The
--                    Go map and the list of elements are one list, the latest used in front.
--   Proxy/Route      internal/proxy/route.go: the records Route and RateLimitConfig.
--   Proxy/Claim      internal/proxy/proxy.go: claimDomains, one app for each domain.
--   Auth/Lockout     internal/auth/lockout.go: lockout after failed logins.
--   Auth/RateLimiter internal/auth/ratelimit.go: the limiter of the API.
--   Auth/RealIp      internal/auth/realip.go: the client address behind trusted proxies.
--   LogBuf           internal/logbuf/logbuf.go: the ring of log lines, and in LogBuf/Sanitize the
--                    filter of a message.
--   Events/Bus       internal/events/bus.go: fan-out of events to subscribers that may be slow.
--   Deployer/Stabilize  internal/deployer/stabilize.go: the poll loop after a deploy, and the merge
--                    of replicas.
--   Proxy/IpAccess   internal/proxy/ipaccess.go: the allowlist of a domain.
--   Proxy/Rules      the registries of ratelimit.go and ipaccess.go, and registerRouteRules.
--   Proxy/Handler    internal/proxy/ratelimit.go: Allow, AllowFor, extractKey, the choice of the handler.
--   Proxy/SetRoutes  internal/proxy/proxy.go: SetRoutes, with its rollback, reloadLocked, ForceReload and
--                    Stop. SetRoutes claims domains (Proxy/Claim), registers the rules (Proxy/Rules) and
--                    loads Caddy; the handlers of a request read the rules by Proxy/Host.
--   Deployer/Tracker internal/deployer/tracker.go: the tracker, which allows one deploy for each app,
--                    and the log of a deploy. Deployer/Stabilize ends a deploy, whose verdict is the
--                    status of the done line.
--   Proxy/Resolve    internal/proxy/route.go: ResolveRoutes, the routes of an app from its endpoints, which
--                    SetRoutes takes.
--   Compose/HostPath internal/compose/validate.go: hostPaths, which host folders an app may mount.
--   Compose/Container, Compose/Build, Compose/Volume, Compose/Security, Compose/Layout, Compose/Validate
--                    the same file: the checks of a container and a build, of services, jobs,
--                    volumes, networks and files, of the
--                    layout of bind mounts, and ValidateComposeSecurity, which runs them all.
--   Compose/Endpoint internal/compose/endpoint.go: ValidateEndpoints, and ValidateComposeForDeploy of
--                    validate.go, which adds it to the checks above.
--   Paths            the functions of path/filepath that these use, on Unix.
--   Backup/Archive   internal/backup/tarsafe.go: the check of the entries of an archive to restore.
--   Backup/Cap       the same file: capReader, the limit on its bytes, and restoreCap of strategy.go.
--   Proxy/Match      internal/proxy/match.go: orderRoutes, the order in which Caddy tries the routes, which is
--                    that of Proxy/Host/Served.
--   Alerts           internal/alerts/evaluator.go: EvaluateOnce and DispatchBackupAlert, over Alerts/Table,
--                    the queries of internal/store/alerts.go that it makes.
--   Compose/ResolvePath  validate.go: resolvePath, which Compose/HostPath takes as `resolve`.
--   Compose/Scalable internal/compose/scalable.go: ScaleEligibility.
--   Mirror           internal/mirror/rewrite.go: rewriteRef.
--   Events/Topics    internal/events/topics.go: TopicsForAudit and TypeForCategory.
--   LogBuf/DockerStream  internal/logbuf/dockerstream.go: the frames of a docker log stream.
--   Auth/Crypto      internal/auth/crypto.go: Encrypt and Decrypt.
--   Compose/Inject   internal/compose/inject.go: InjectSharedNetwork, on the trees of Compose/Yaml.
--   Store            internal/store/users.go: Store/Tables, and the statements on users (Store/Users), API keys
--                    (Store/Keys) and access (Store/Access); Store/History runs any sequence of them.
--   Api/Session      internal/api/middleware.go: authMiddleware and the checks of access, over Store. A session
--                    holds a version of its user, which the statements of Store/Users raise.
--   Api/EnvFile      internal/api/env.go: the .env file of an app, and its two requests.
--   Reconciler       internal/reconciler/reconciler.go: Reconcile, on the rows of internal/store/apps.go.
--   Api/Login        internal/api/auth.go: handleLogin, over Auth/Lockout and Store.
--   Api/Setup        the same file: handleSetup, which makes the first account, and handleLogout.
--   Backup/Pipeline  internal/backup/pipeline.go: RunBackup and RunRestore, as the effects they have.
--
-- How code becomes definitions. A method under a mutex is one step, a function of the state. A time
-- is a number of nanoseconds and the clock is an argument; `now - t >= w` is written `t + w <= now`.
-- A Go map is an association list (Prelude/Dict), read by its first entry for a key; where the code
-- ranges over a map, the list may hold its entries in any order. A text is the list of its bytes
-- (Prelude/Text). An index out of range and a send on a closed channel, which
-- panic in Go, are `none`. Numbers that the code never lets fall below zero are natural numbers.
--
-- Parameters. Code that is not in this repository is an argument: the package net (Net.antt: host and
-- port, addresses, ranges), SHA-256 in hexadecimal, the removal of ANSI escapes by a regular
-- expression, the load of Caddy, the answers of docker, the addresses of containers, the environment,
-- the file system (EvalSymlinks, Lstat, filepath.Abs), the parsers of numbers and durations, the
-- arithmetic of float64, the verbs %q and %d, what archive/tar reads of an archive, and what a compose
-- file holds once package compose-go has loaded it: its records have the fields that are read. So are
-- bcrypt, the tokens of package jwt, AES-GCM, PBKDF2 and base64 of Auth/Crypto, the reader and the
-- printer of package yaml, and in Backup/Pipeline what hooks, strategy and target answer. The
-- JSON of the Caddy configuration and the fingerprint of certificate files are arguments too, since
-- only their equality matters here. No property assumes anything of them but what its comment states.
--
-- Bounds and fuel. `shrink` of Proxy/RateLimit takes the length of the list as fuel, and each round
-- drops an element. resolvePath of Compose/ResolvePath takes one round more than its path has bytes,
-- and each round drops an element of the path. The poll loop of Deployer/Stabilize takes the list of
-- what docker answers, and a copy of Backup/Cap the list of its buffers, which may be as long as one
-- likes. For read_frames of LogBuf/DockerStream any fuel above the number of frames is enough.
-- trim_runes of Prelude/Lines takes the length of its text, and each round
-- drops a byte or more. All other loops are recursion on their list.
--
-- Not modelled: the SQL of the store but for users, keys, access, apps and open alerts; the HTTP
-- handlers but for those named above, and of those the cookies, audit records and JSON; the CLI, the
-- processes of docker and git, the git and configuration sync, metrics, the loading of compose files,
-- files and log output; the memory model of Go below its mutexes.
pub mod Prelude
pub mod Auth
pub mod Net
pub mod Proxy
pub mod LogBuf
pub mod Events
pub mod Paths
pub mod Compose
pub mod Backup
pub mod Alerts
pub mod Mirror
pub mod Deployer
pub mod Store
pub mod Reconciler
pub mod Api
