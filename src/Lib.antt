-- ===== src/Lib.antt =====
-- A model of the AlertHub server (server/internal), the program that signs emergency alerts,
-- broadcasts them over MQTT, delivers them over other channels, and keeps the record of who did what.
--
-- The parts and how they interact. An alert comes from the panel (api/api.go), from a CAP document
-- (cap/cap.go, api/cap_handlers.go) or from an earthquake feed (eew). PublishAlert signs it, broadcasts it, decides whether
-- it becomes the retained active alert, saves it, hands it to the outbox (delivery, store/delivery.go)
-- and starts the escalation ladder (api/escalation.go). A recall ends the ladder and clears the slot, a
-- sweeper expires it, and a signed heartbeat reports the server's health. Requests pass the gates of
-- api/middleware.go and api/scope.go, the login endpoints also the limiter of api/ratelimit.go; a session
-- is opened by api/auth_handlers.go, with a second factor (twofa) where the account has one. Devices
-- speak to the server over the broker (broker), whose access list bounds what they may publish: their
-- presence and acks (api/presence.go, api/acks.go) feed the ladder and the drills (api/drill.go). The
-- actions are recorded in the audit chain (store/audit.go, store/audit_prune.go), which siem exports.
--
-- The files:
--   Base        shared names: Go's tests, slices, byte strings, decimal printing, trimming, maps
--   Alert       server/internal/alert: Alert, Heartbeat, Canonical, Sign, Verify, ValidateInput
--   Cap         server/internal/cap/cap.go: MapToAlert, ToXML, ParseReferences
--   Eew         server/internal/eew: MapWolfx, MapP2PQuake, Deduper, the message loop of runFeed
--   Quake       server/main.go: what it does with an event of the feeds
--   Audit       server/internal/store/audit.go and audit_prune.go: AppendAudit, VerifyAuditChain,
--               PruneAudit, which may stop between its statements
--   Delivery    server/internal/delivery and server/internal/store/delivery.go: the outbox
--   Escalation  server/internal/api/escalation.go: TrackForAck, StopEscalation, evalEscalations
--   RateLimit   server/internal/api/ratelimit.go: allow
--   Access      server/internal/auth/perms.go, server/internal/api/middleware.go and scope.go, and
--               actorOf of server/internal/api/audit.go
--   Server      server/internal/api/api.go with Save of server/internal/store/store.go
--   Ntfy        server/internal/ntfy/ntfy.go: the posts of Publish and Escalate
--   Siem        server/internal/siem and server/internal/store/audit_export.go: exportOnce, AuditSince,
--               formatRFC5424
--   TwoFactor   server/internal/twofa/twofa.go and server/internal/store/twofa.go
--   Login       server/internal/api/auth_handlers.go and server/internal/auth/auth.go: the sessions
--   CapApi      server/internal/api/cap_handlers.go: handleCAPIngest, handleCAPCancel
--   HttpCache   server/internal/api/httpcache.go: gzipWriter, withGzip, withCacheControl
--   Scenario    server/internal/scenario/scenario.go and server/internal/api/scenario_handlers.go: Get,
--               handlePublishScenario
--   OneTime     putSession and takeSession of server/internal/passkey/passkey.go, putSSOCode and
--               takeSSOCode of server/internal/api/oidc_handlers.go
--   Accounts    server/internal/store/users.go, orgs.go, service_accounts.go with
--               server/internal/api/serviceaccount_handlers.go and orgs_handlers.go, and the start of
--               server/main.go
--   Passkey     server/internal/passkey/passkey.go, server/internal/store/passkey.go,
--               server/internal/api/passkey_handlers.go
--   Sso         server/internal/sso, server/internal/api/oidc_handlers.go and saml_handlers.go
--   Routes      the route table of server/internal/api/api.go (Handler), and rateLimit of ratelimit.go
--   Store       rebind and History of server/internal/store/store.go, and the listings of delivery.go
--               and audit.go with their endpoints
--   Secrets     the key files of server/main.go (loadOrGenKeys, loadOrGenJWTSecret, loadOrGenKEK), and
--               server/internal/secretbox/secretbox.go
--   Broker      server/internal/broker/broker.go: OnConnectAuthenticate, OnACLCheck
--   Devices     server/internal/api/presence.go, acks.go, pendingDevices of escalation.go, and
--               server/internal/store/acks.go: who is online and who confirmed
--   Drill       server/internal/api/drill.go and server/internal/store/drills.go: RunDrillOnce
-- Each holds the state and the operations of its part, named as in the source but in lower case with
-- underscores; its folder holds what is proved of them and, in Tests, runs at concrete inputs.
--
-- How the code is read. Strings are lists of bytes. A number is a natural number: times, durations
-- and identifiers are never negative in the modelled code, and sums of times stay below 2^63. A
-- table is the list of its rows, and a Go map a function from keys to entries. What the outside
-- decides is an argument: the clock, random identifiers, whether the broker or the database takes a
-- write, what a channel answers. A read of a table succeeds, except where an argument says
-- otherwise (the second factor, the readiness check). Unicode normalisation, Ed25519, base64,
-- SHA-256, JSON, JWT, TOTP, bcrypt, AES-GCM and XML are parameters; the records SignerLaws and the
-- named hypotheses say what is relied on. A map whose entries are listed (the roster) is the list
-- of its entries, in an order of no account. Trimming and splitting texts run on as much fuel as
-- the text has bytes, and each round takes one byte at least; every other loop is recursion on a
-- list or on a count that the code bounds (the retries of a backoff, the three phases of a ladder)
-- or on fuel: the export loop needs one more than the log has rows, since each round marks one.
--
-- Not modelled: the web clients, static files, the protocols of single sign-on and passkeys (calls
-- of libraries), the outgoing CAP feed, the SQL set-up, metrics and logging. A held lock makes each
-- operation one step; the interleaving of a maybeSetActive with a publish of another goroutine is
-- not modelled, nor is that of two events of the earthquake feeds, whose lock ends before the
-- publish.
pub mod Base
pub mod Alert
pub mod Cap
pub mod Eew
pub mod Audit
pub mod Delivery
pub mod Escalation
pub mod RateLimit
pub mod Access
pub mod Server
pub mod Ntfy
pub mod Siem
pub mod TwoFactor
pub mod Login
pub mod CapApi
pub mod HttpCache
pub mod Scenario
pub mod OneTime
pub mod Accounts
pub mod Passkey
pub mod Sso
pub mod Quake
pub mod Routes
pub mod Store
pub mod Secrets
pub mod Broker
pub mod Devices
pub mod Drill
