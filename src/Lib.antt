-- ===== src/Lib.antt =====
-- Heliograph relay: a store-and-forward relay between control planes and stations. A sender POSTs a
-- message to a route (estate, station, direction); the message waits in the route's queue until the
-- other side collects it, for good or under a lease that it acknowledges; an authoriser decides each
-- request. The handlers of server.go ask the authoriser, call the store, settle with the authoriser
-- and wake held polls; the store writes a message to its spool before it queues it, and removes the
-- copy when the message leaves the queue.
--
-- What models what:
--   Common    texts as lists of bytes, maps as association lists, integers, strings.Split and TrimSpace
--   Relay     relay.go and lease.go. Message and Store: the data, Put, Take, Depth (Store.Put, Store.Take,
--             Store.Depth, expireLocked); Leased: TakeLeased, Ack, Sweep; Steps: the calls as steps of
--             the store. The other children hold what is proved of them: Frame, Isolation, Loops,
--             Holding, Expiry, Lapse, Collect, Exclusion, Leasing, Draining, Single on collection; Accepting,
--             Promises, Durability on Put; Invariant, Preservation, PutPreservation, Histories,
--             Freshness on whole runs.
--   Spool     spool.go. Disk: write and remove; Open: readSpoolFile; Load: load and OpenSpool; Names: the
--             order of file names; Durable: what is proved of them.
--   Recovery  the store and its spool together. Mirror: the directory as the picture of the queues; Removal,
--             Settling, Calls, Storing, Runs: each call of relay.go and lease.go keeps it; Reading and Restart:
--             what OpenSpool reads back from it.
--   Auth      Types: auth.go and the types of scope.go; Scoped: scope.go; Static: the tokens of server.go
--             and FromAuth; Authority: authlease.go; Remote: remote.go; Minting: a lease from
--             NewAuthority to ParseAuthority; Referral: AuthorityAuth.Admit; Roles and Listing:
--             ParseStationScopes; Reused: the cache of RemoteAuth over a history; Bounds, Bounded and
--             Watching: further theorems.
--   Server    server.go. Put: Server.put; Get: Server.get, getLeased and ack; Reply: refuse, hold, token;
--             Waiters: the channels of held polls; LeaseParam: ParseLease; Service: Routes, the server as
--             a whole, /health, /version and the root; Answers, Polling, Acknowledging, Waking, HeldPolls,
--             Confinement, Tenancy, Sending, Admitting, Inflation, Collecting and Delivery: the theorems.
--   Config    cmd/heliograph-relay/main.go. Estates: which authoriser the environment selects; Start: the
--             wrapping of it, the spool and the server; LeaseKey: verify.go; Sides, Wrapping and Checks:
--             the theorems.
--   Conformance  conformance/ and cmd/conformance/. Client: the suite's calls; Durability, Exchange and
--             Leasing: its sections and Report; Machine: the server of Server.Service behind those
--             calls; Ready, Steps, Calls, LeaseCalls, LeaseTerms and Stations: what each call does;
--             Survival, Passing, Tokens, Leases, Holding and Returning: what the sections find;
--             ControlPlane: the authoriser that the suite runs; Lease: its encoder of leases; Tenants and
--             Encoders: the theorems on these.
--   The modules whose name ends in Tests hold instances of the theorems at concrete inputs.
--
-- Conventions. An instant is a natural number of nanoseconds from the earliest instant that a Go Time
-- holds. Each operation of the store runs under its lock, so it is a function, and it reads the clock
-- once. A uint64 counter wraps at 2^64. Every loop is structural recursion; the only fuel is that of the
-- decimal printer, n + 1 rounds for n, which suffice since each round divides by ten. A held poll is
-- given its end, the instant of it and what other requests did to the store meanwhile.
--
-- Parameters, for code outside the repository: the JSON codec of spool heads and of lease payloads,
-- base64 and hexadecimal coding, sha256, the Ed25519 check, floating-point numbers, the decoding of
-- an HTTP body, the pattern that a request matches, and the answer of a remote authoriser. The file
-- system is a dictionary of the spool's directory; which files cannot be read, moved or removed and
-- which step of a write fails are arguments.
-- TrimSpace trims ASCII white space.
--
-- Not modelled: logging, the writing of JSON and the landing page's text, which only produce
-- output; the settlements that a remote authoriser is sent; the serving of HTTP and signals; the edge
-- worker in edge/, which is another implementation in TypeScript; of the conformance suite, the rest of
-- the section on leases, those on tenancy, outages and held polls, and what it prints.
pub mod Common
pub mod Relay
pub mod Spool
pub mod Auth
pub mod Server
pub mod Config
pub mod Conformance
pub mod Recovery
