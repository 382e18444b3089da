-- ===== src/Lib.antt =====
-- The two services of the DSS. Strategic coordination (SCD) is a directory where USSs (UAS service
-- suppliers) share operational intents, subscriptions and constraints, so that each knows of the
-- others in its airspace. Remote identification (RID) is one of identification service areas (ISAs)
-- and of subscriptions to them. A USS may put an operational intent into an area only if it proves,
-- by a key of opaque version numbers (OVNs), that it knows the others there. The program is a server
-- over a repository: a request is validated and becomes a proposal, proposals are committed in one
-- order, and each is applied to the repository by its operation.
--
-- Parts and files:
--   Prelude, GoMap, Exec      what the other modules share: lists and numeric tests; Go's maps with text
--                             keys as lists of entries, in the order in which a range visits them, which
--                             is arbitrary; and stateful code that may fail, as functions from a state to
--                             a result and a state. What was written before an error stays written.
--   External                  the code from outside the repository: the S2 library, SHA-256 with base64
--                             and the format of a time are the fields of one record, and every definition
--                             that uses them takes it as an argument. `S2Laws` and `ContainsUnion` state
--                             the behaviour of S2 that theorems rely on.
--   Fixtures                  a concrete such record, for the tests.
--   Models                    pkg/models/geo.go and pkg/geo/s2.go: `CellsVolume4D`, `Levelify`,
--                             `ValidateCell` and `UnionCellsVolumes4D` (Models/Union); pkg/models/models.go:
--                             `Version` (Models/Version), with the conversions of Go's strconv in base 32.
--   Scd/Models                pkg/scd/models: the values, the predicates on states, `NewOVNFromTime`, and
--                             (TimeRange) `AdjustTimeRange`, (Rest) the conversions `ToRest` and
--                             `makeSubscribersToNotify` of pkg/scd/operations/registry.go.
--   Scd/Store                 pkg/scd/store/memstore, the repository in memory. Records is store.go; Spec
--                             says when a volume intersects an area; Valid is the well-formedness of a
--                             state. Availability, Subscriptions, OperationalIntents and Constraints have
--                             one definition per method, under its name; Keeps, that the writes keep a
--                             state valid. Checkpoint is `Checkpoint`, `Restore` and their use by
--                             `processCommits` of pkg/raftstore/store.go, on tables of values;
--                             Checkpoint/Pointers has the table of subscriptions as a map of pointers,
--                             with the clones and the writes in place, Memory and Isolation what these
--                             do to the records.
--   Scd/Oir                   pkg/scd/operations/operational_intents.go: Params, the validated parameters
--                             and the checks on them; Delete, `executeDeleteOperationalIntentReference`;
--                             Resolve, `resolveSubscription` and `ensureSubscriptionCoversOIR`; Key,
--                             `validateKeyAndProvideConflictResponse`; Put,
--                             `executePutOperationalIntentReference`; Query, the reading and the query
--                             of operational intents. Reads, Keeps, Attached, Put/Trace,
--                             Put/Writes and Put/Chosen carry their proofs.
--   Scd/Constraints           pkg/scd/operations/constraint.go.
--   Scd/Availability          pkg/scd/operations/availability.go.
--   Scd/Subscriptions         pkg/scd/operations/subscription.go: the deletion and the reading of a
--                             subscription; Put, `executePutSubscription` with `ValidateDependentOps` of
--                             pkg/scd/models/subscriptions.go, whose meaning Put/Covers says; Query,
--                             `executeQuerySubscriptions`.
--   Scd/Run                   sequences of the operations that write.
--   Scd/Replica               pkg/scd/store/raftstore/store.go: `Apply`, and a node of Raft that serves
--                             the memory store by `processCommits`.
--   Rid/Models                pkg/rid/models: the entities and (TimeRange) `AdjustTimeRange` of both.
--   Rid/Store                 pkg/rid/store/memstore: Records is store.go, Isas and Subscriptions have one
--                             definition per method; Writes says what a write comes to, Keeps which states
--                             are valid, Quota what requirement DSS0030 asks of a state.
--   Rid/Isa, Rid/Subscriptions
--                             pkg/rid/operations: the operations of the registry, from their payloads on.
--                             Outcome gives all their outcomes, from which Laws takes what success means
--                             (for ISAs in the words of Isa/Effects) and what every run keeps.
--   Rid/Run                   sequences of those operations, at times that do not decrease.
--   Raft                      pkg/raftstore/consensus: Proposals is proposal.go, Reads readindex.go,
--                             Membership membership.go, and Consumer what the goroutine of consensus.go
--                             does with an update of the Raft library. Consumer/Entries says which entries
--                             of an update are taken, Laws that a node is a replica of the log, Wakes,
--                             Reads and Serves which reads an update releases, Changes what a change of
--                             the members keeps. Run is a node's steps: updates, and what the requests of
--                             clients do to the trackers, and to the store when a read is committed.
--
-- The state of a service is one record of maps, and an operation is a function on it; the time of a
-- request, which the source carries in its context, is the argument `now`. A pointer that may be nil is
-- an `Option`, and reading a nil pointer is the error `panic`, which ends the process of a node: the
-- consumer stops, and nothing is restored or answered. An int32 version and an int64 index wrap
-- around. Times and altitudes are natural numbers: a time counts nanoseconds, and altitudes are only
-- compared, so that their origin does not matter. Loops are recursions on the list that they range
-- over. Only `digits` of Models/Version, the loop of strconv's formatting, runs on fuel: on 13 digits,
-- which are enough for a uint64 in base 32, as 32 ^ 13 is more than 2 ^ 64.
--
-- Not modelled: the conversion of requests to parameters, the SQL stores, whose queries a database
-- interprets, the Raft library, a parameter here, with the storage and the transport of a node,
-- tokens, HTTP and generated code.
pub mod Prelude
pub mod GoMap
pub mod Exec
pub mod External
pub mod Fixtures
pub mod Models
pub mod Scd
pub mod Rid
pub mod Raft
