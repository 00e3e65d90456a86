-- ===== src/Lib.antt =====
-- The core of the KajovoCML control plane (apps/server/src): what may serve, what is recorded, and
-- how much of it runs at a time.
--
-- The control plane registers servers, moves them through a table of registration states, and lets
-- them serve only while a reviewed revision and a monitoring profile stand behind them. Each change
-- is one transaction on PostgreSQL that also writes the linked rows and an event of the audit log.
-- A table is a list of rows here and a transaction a function from a store to a store or an error,
-- with the rows read and written in the order of the source; the clock, identifiers and digests that
-- the source draws are arguments.
--
-- - Prelude: Boolean tests, lists and results that the other modules share.
-- - Types: the enumerations of apps/server/src/domain/types.ts and managed-service-types.ts.
-- - Recertification: `evaluateRecertification` of apps/server/src/domain/recertification.ts. Times
--   are milliseconds; a date is what `Date.parse` makes of it, and a text may be no date.
-- - Security: `redact` of apps/server/src/security/secrets.ts, on JSON values (Redact) and inside
--   texts (Text), where the regular expressions are matchers on lists of code units.
-- - Audit: apps/server/src/domain/audit.ts with the functions and the trigger of
--   apps/server/src/migrations/001_pre_production_baseline.sql that it calls. SHA-256
--   and the cast to jsonb are arguments of the model, and what needs the one to be free of collisions
--   says so.
-- - AuditArchive: apps/server/src/domain/audit-archive.ts, where writing the lines to the file is an
--   argument and what went wrong a value; Batches counts what a batch archives.
-- - ServerState: apps/server/src/domain/server-state.ts. Lifecycle holds the table and the tests on
--   states, Store the rows, Checks the guards of a transition in their order, Rows what a transition
--   makes of a row, Update the three operations. The policy epoch of a component, which a trigger of
--   the database raises, is left out.
--
-- - ComponentAuth: apps/server/src/domain/component-auth.ts. Store holds the tables, Route SQL's `like`
--   on the routes of permissions, Decide the ladder of conditions, Authorize the transaction.
-- - Monitoring: `evaluateOperationalState` of apps/server/src/domain/monitoring-policy.ts and what a
--   cycle of apps/server/src/onboarding/monitoring.ts keeps of it.
-- - Mcp: the leases (Leases) and the cache of validators (Cache) of
--   apps/server/src/domain/mcp-policy.ts. The compiler of schemas is an argument.
-- - RateLimit: apps/server/src/http/postgres-rate-limit-store.ts, with the keyed digest an argument.
-- - Alerts: apps/server/src/domain/alerts.ts. Store holds the tables, Raise the changes of alerts,
--   Deliver the lease of a webhook's delivery and its settlement, Choice and Order which delivery is
--   leased, Attempts the runs of workers, broken off or not, and how often they try; the request is an
--   argument that answers with an outcome.
-- - Invocation: apps/server/src/domain/invocation.ts, which raises its own alert in the tables of Alerts
--   and writes to the audit log.
-- - Egress: the destinations and addresses of apps/server/src/onboarding/egress-proxy.ts; in
--   Capability the table of apps/server/src/domain/egress.ts and in Ephemeral its signed tokens, whose
--   encoding and signature are arguments.
-- - WedosDns: apps/server/src/tls/wedos-dns-operation.ts. The API of the DNS provider and the name servers
--   are arguments that answer by all the calls so far. Names holds the names and markers, Store the rows
--   and the steps of an `async` function, Rows the provider's rows, Publish, Cleanup, Recovery and Creation
--   the operations, Propagation what name servers answer and the wait for it; Lifecycle is the life of an
--   operation as it is meant, Moves and Steps the rules by which each operation is shown to keep to it.
-- - Credentials: apps/server/src/domain/auth.ts and the decision on a bearer token of managed-service.ts.
--   Store holds the tables, External the operations and probes of an external API, Access when a service
--   can be called and the scopes held in it, Authorize the tests of a token, Decision the decision, Issue
--   the issue of a token, Manage the life of a credential, Permissions and Replace the replacement of its
--   permissions; Holding, Available, Naming, Vouching and Conditions say of the rows what the decision asks
--   of them. A manifest is taken to be one that the validation accepts. The check of a secret is an argument; so are the identifiers, epochs and digests that
--   are drawn. It stands on Recertification and writes to the audit log.
-- - JsonRpc: apps/server/src/http/json-rpc.ts.
--
-- Loops run over lists or matched text; only the wait of WedosDns takes fuel, of 182 rounds: a round takes
-- five seconds or reaches the timeout, which is at most 900 seconds.
--
-- Not modelled: the HTTP routes and the command line (glue), the web client, network probes and
-- worker loops, and the parts of the domain that work with containers and external services.
pub mod Prelude
pub mod Types
pub mod Recertification
pub mod Security
pub mod Audit
pub mod ServerState
pub mod ComponentAuth
pub mod Monitoring
pub mod Mcp
pub mod RateLimit
pub mod Alerts
pub mod Invocation
pub mod Egress
pub mod JsonRpc
pub mod AuditArchive
pub mod WedosDns
pub mod Credentials
