-- ===== src/Lib.antt =====
-- dnsmon asks many DNS resolvers the same question and says how far a change has spread. This library
-- models its core, the packages `checker` and `monitor` with what they stand on, the sessions, and the
-- handlers that write settings and monitors, with theorems on them.
--
-- The parts, with the files that model them (paths of the code from the repository's root):
--
-- - Dns.antt: the data of internal/dnsclient/result.go. Dns/RecordTypes.antt: the record types of
--   internal/dnsclient/recordtypes.go. Dns/Ip.antt: the addresses that Go's `net.ParseIP` reads and
--   the tests on them that the checks call.
-- - Settings.antt: the data of internal/settings/settings.go.
-- - World.antt: the interfaces `Storage`, `Cache` and `Client` of internal/storage/storage.go,
--   internal/cache/cache.go and internal/dnsclient/client.go, the clock and the random source, as
--   records of functions on a world `W`; World/Results.antt has the results and the errors.
-- - Dns/Records.antt and Dns/Client.antt: `Query` of internal/dnsclient/client.go, with its attempts;
--   Dns/Client/Rounds.antt says how they go on, and Dns/Client/Attempts.antt is about their number and
--   what comes of them.
-- - Storage.antt: the stores of internal/storage. A SQL statement is a value of `Statement` or
--   `Select`. Storage/Rows.antt has what both databases share, Storage/Sqlite.antt and
--   Storage/Postgres.antt their operations, Storage/Noop.antt the store that keeps nothing.
--   Storage/Documents.antt says what a store promises, Storage/Tables.antt what is supposed of SQL and
--   JSON; Storage/Views.antt, Storage/Steps.antt and Storage/Refinement.antt lead from one to the other.
-- - Registry.antt: internal/resolvers/registry.go and resolvers.go. Registry/Lookup.antt is
--   about its lookups.
-- - Checker.antt: internal/checker. Checker/Request.antt has the request and `validateRequest`,
--   Checker/ResolverList.antt `buildResolverList`, Checker/FanOut.antt the goroutines of `fanOut` and
--   their semaphore as a step relation, Checker/Check.antt `queryWithCache` and `Check`,
--   Checker/Lookup.antt `Lookup`, Checker/Summary.antt `buildSummary`, Checker/Permalink.antt `NewID`;
--   Checker/Trace.antt `Trace`, with its proofs in Checker/Trace/Targets.antt and
--   Checker/Trace/Hops.antt; Checker/Stream.antt `Stream`; Checker/State.antt has the struct `Checker`.
-- - Monitor.antt: internal/monitor/monitor.go, with `NewID` of internal/settings/secret.go in
--   Settings/Ids.antt. Monitor/Values.antt, Monitor/Consensus.antt, Monitor/Drift.antt,
--   Monitor/Propagation.antt and Monitor/Alerts.antt are about what it compares, observes and
--   reports.
-- - Settings/Session.antt: internal/settings/session.go, with its proofs in Settings/Session/Tokens.antt.
--   Settings/Secret.antt: the hashes and tokens of internal/settings/secret.go, of which
--   Settings/Secret/Passwords.antt shows that a hash verifies its secret.
-- - Api.antt: the replies of the handlers. Api/MonitorRoutes.antt, Api/SettingsRoutes.antt,
--   Api/ScheduleRoutes.antt and Api/HistoryRoutes.antt: internal/api/v1/monitors.go, settings.go and
--   history.go; Api/Auth.antt: `RequireAuth` of internal/api/middleware.go and `Session` of
--   internal/api/v1/auth.go; Api/Login.antt: its `Login` and `Logout`; Api/CheckRoutes.antt: check.go,
--   lookup.go, trace.go, reverse.go and resolvers.go of internal/api/v1; Api/StreamRoutes.antt: its
--   stream.go and `TestNotification`; Api/SystemRoutes.antt: its export.go, health.go and
--   recordtypes.go; Api/Headers.antt: the middleware that sets headers; Api/Routes.antt: the routes of
--   internal/api/server.go, in which a handler is a name. Elsewhere a handler is a function of the
--   decoded body of its request.
-- - Notify.antt: internal/notify/notify.go. Cache.antt: internal/cache. Ratelimit.antt:
--   internal/ratelimit. Export.antt and Export/Svg.antt: internal/export/csv.go and the markers of
--   svg.go. Notify/Delivered.antt and Cache/Expiry.antt are about the first two.
-- - Base.antt: Boolean tests on the native numbers, lists, texts, association lists, decimal numbers
--   and `sort.Strings`. Tests.antt and the modules named Tests run the code on concrete inputs.
--
-- How the model stands to the code. A text is the list of its bytes. A Go `int` that counts the
-- elements of a list in memory is a natural number; a 64-bit word that the code shifts is kept modulo
-- 2 ^ 64. A map is an association list, and the order in which Go ranges over it, which is not
-- specified, is an argument (`Iterate`) of which only that it permutes the entries is supposed.
-- Code outside the repository (the DNS library, JSON, SHA-1, SHA-256, the databases) is an argument
-- too. An operation that acts on something outside is a function of the world, which returns its
-- result and the next world. A context is modelled where `Query` and `Stream` look at it; metrics and
-- logs are left out, and `%q` in the texts of errors is modelled by quotes without its escapes.
--
-- `Check` calls `fan_out` of Checker/Check.antt, which asks the resolvers one after the other;
-- Checker/FanOut.antt has the steps of the goroutines in every order, over any relation of resolvers to
-- answers. The loop of `Query` and that of `Trace` recurse on the attempts and the steps that are left,
-- as the code counts them. The other loops are recursions on the list, the text or the number of digits
-- that they go through.
-- Two helpers of the standard library's part run on fuel: the digits of a number (Base/Decimal.antt)
-- take one round more than the number, and each divides it by ten; the groups of an IPv6 address
-- (Dns/Ip.antt) take nine rounds, one more than an address has groups.
--
-- Not modelled: the log and the recovery from panics, the drawing of the SVG, PNG and PDF exports, the
-- start of the program and the web pages. Floating-point numbers are
-- computed with only in the rate limiter and the drawings; in the first their operations are an
-- argument.
pub mod Api
pub mod Base
pub mod Cache
pub mod Checker
pub mod Dns
pub mod Export
pub mod Monitor
pub mod Notify
pub mod Ratelimit
pub mod Registry
pub mod Settings
pub mod Storage
pub mod Tests
pub mod World
