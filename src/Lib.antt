-- ===== src/Lib.antt =====
-- Verification of the core of the x-auth services: the rate limiter, the authenticator service's
-- challenges and lockout, the risk service's policy engine, the pool service's storage and handlers, the
-- grant service, the broker's OAuth grants, and the authentication service's
-- flows, sessions and step-up.
--
-- The program and its parts. Each service is an HTTP server over a storage of its own. A request
-- carries its tenant in X-Tenant-Id; the handler checks the request, calls the storage and answers.
-- The in-memory storages hold one mutex for each operation, so each operation is one step here, and
-- concurrent requests are sequences of steps. A handler is one step too, where nothing else is said:
-- its request completes before the next begins.
--
-- - Ratex (pkg/ratex/ratex.go): the sliding-window Limiter. `allow` is Limiter.Allow, with its
--   periodic sweep `sweep_locked`, `middleware` is Middleware. The record `Allower` is the interface
--   that the lockout and the handlers use; `in_memory` fills it. Window, Refinement and Throttle hold
--   the lemmas on windows, the specification by a log of admitted events, and the bound on admissions.
-- - Authenticator (services/authenticator-service/internal): Model is models.go; Lockout and Backoff
--   are abuse.go, with the lockout over any Allower; Store is storage.go; Select is
--   selectAuthenticator, and Challenges is Create, Get and Verify of challenges.go. A handler takes
--   the service's state and gives the new state with a Reply; Verify calls the lockout, the storage
--   and the adapter in the source's order. Stages is Verify again, cut at each of those calls,
--   and Overlap is about requests whose stages come in any order.
-- - Risk (services/risk-service/internal): Model is models.go and Policy is policy.go. `evaluate_policies`
--   is EvaluatePolicies, whose loops are `apply_policies` and `apply_rules`; `validate_rules` is
--   ValidateRules. Store is storage.go; Isolation and Listing follow from it.
-- - Pool (services/pool-service/internal): Store is storage.go and models.go. Steps gives the calls
--   that change the storage as requests and the one change that each can make; Lifecycle, Exclusion,
--   Capacity, Claims and Pages follow from it. Server is handlers.go; Compensation is what a release
--   undoes of a claim.
-- - Grants (services/grant-service/internal): Store is storage.go, models.go and the handlers RevokeGrant
--   and RevokeGrantsForInstall of handlers.go; Tokens is RevokeByToken and Introspect, and HashToken of
--   grants.go; Issuing is CreateGrant and GetGrant, and isTokenHash of grants.go; Auditing is
--   AppendAudit, QueryAudit and audit.go. Issued and Queries follow from them.
-- - Broker (services/broker-service/internal): Store is storage.go and models.go. Clients is the
--   interface that the broker has to the persona, pool and grant services (clients.go), with a state
--   that stands for theirs. Calls gives what a request carries (the clock at each place that reads it,
--   the fresh ids) and the records that a grant writes; Code and Refresh are handleCodeGrant and
--   handleRefreshGrant of oidc.go, stage by stage; Endpoints is the rest of oidc.go, dcr.go and
--   install.go. Effects gives a relation for what each grant may do. Runs makes the broker a state
--   machine whose steps are its requests and the sweep, with what a step does to the tokens, the codes
--   and the installs; Replay, SingleUse, Revoked, Renewal and Sweep follow from it. OverPool fills the
--   interface with the pool service's handlers, so that a code grant runs over both services.
-- - Authentication (services/authentication-service/internal): Flow is flowexec.go and flowmodels.go, with
--   runFlow as `run_flow` on fuel; Sessions is sessions.go with the sessions of storage.go; Protection is
--   the ladder and the assurance ledger of protection.go; StepUp is stepup_tracker.go and the parked
--   flows and the minting of otp.go, and StepUp.Verify its AuthorizeVerify. Termination, Lifecycle,
--   Ledger, Freshness and Minting follow from them.
-- - Base: tests on numbers and texts, lists, Go maps as association lists (Dict), sort.Slice as an
--   insertion sort (Sort) and pages of a sorted list (Page), and signed numbers (Int).
--
-- How the code is rendered. Instants and durations are natural numbers, in nanoseconds or in any
-- other unit, from an origin that every window lies after; a zero time.Time that the code tests for
-- is `none`. A clock that is read at several places of a handler is a function of the place. A Go
-- map is an association list whose keys are distinct by an invariant; the order of the list stands
-- for Go's unspecified order of iteration. Errors are constructors. Every loop is structural
-- recursion over a list, but for runFlow, whose fuel of one round more than the stages is shown to
-- be enough. Counts of attempts are naturals: the guards keep them below the bound of a Go int, and
-- the backoff's shift is shown to stay in an int64.
--
-- Parameters. The vendor adapters (`Adapter`) and their registry, the fresh ids of uuid.NewString,
-- the digest of tokens, the signer of access tokens, strings.TrimSpace, the parsers of hex digits, times and numbers, and of Go's runtime what the
-- policy engine uses (`Runtime`: float64 comparisons and strings.Contains; the formatting of %v) are
-- arguments of the definitions.
--
-- What is not modelled: the HTTP routing, JSON decoding and logging around the handlers; the
-- Postgres and Redis storages, whose code is SQL and Lua on a server; that a request interleaves
-- with another between its calls of the storage, but for Verify; NewRedisLockout and ParseRate;
-- enrolment and WebAuthn ceremonies; the risk scorers, aggregation and CAEP receiver; the rest of the authentication service and the fido, persona,
-- id and transaction services; the transport, token and driver packages under pkg.

mod Base
pub mod Ratex
pub mod Authenticator
pub mod Risk
pub mod Pool
pub mod Grants
pub mod Broker
pub mod Authentication
