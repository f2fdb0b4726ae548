-- ===== src/Lib.antt =====
-- The sync engine: a client-server log replication library. Clients submit operations; one authority
-- decides each of them once, gives the accepted ones a place in a canonical log, and every client keeps
-- a replica of that log with an outbox of its own operations over it.
--
-- The parts, and the files that model them:
--
--   Protocol, Errors, Limits      src/protocol.ts, src/errors.ts, src/limits.ts. Interfaces are records,
--                                 unions data types, and an error class a constructor of `SyncError`
--                                 with its public fields.
--   Invariants                    src/invariants.ts: the checks of identities, batches, requests, logs and
--                                 responses. Each loop is a function by recursion on the list with
--                                 what the loop has seen as arguments. The children named `Valid`
--                                 say exactly what a check accepts, Entries and Piece what
--                                 they need of pages.
--   Server                        src/server.ts: `InMemoryLogServer`. State and Transition have the
--                                 private fields, the staged transition and `#processProposal`;
--                                 Create the constructor and the restoring of a snapshot; Server
--                                 itself `synchronize`, `snapshot` and `getDecision`. Direct is the
--                                 specification without a staged transition, Refinement says that the
--                                 code implements it, Decides and Batch have it as step relations,
--                                 Consistent and Preserve the invariant, Page, Total and Retry what
--                                 is answered; Register, Snapshot and Restart what a server that is
--                                 made from the snapshot of another one has.
--   Replica                       src/replica.ts. State, Outbox, Decisions and Merge have its functions;
--                                 Find, Canonical, Learn, Confirm and Follow the lemmas on each loop of
--                                 `mergeSyncResponse`; Converge, CaughtUp, Enqueue, Compact, Prepare,
--                                 Local, Shrink with its children, Waiting, View and Steps the properties.
--   Json, Wire                    src/wire.ts. Json has the values, and what is left of `canonicalizeJson`
--                                 of src/fingerprint.ts when its text is parsed again: fields in order.
--                                 Read, Encode and Decode are the file's functions, Roundtrip, Entries
--                                 and Responses their round trips.
--   Fingerprint                   src/fingerprint.ts: the canonical text of a value, and the intent hash.
--   IndexedDb                     src/indexeddb. Record has what is stored and derived, Check the check
--                                 `assertReplicaRecord` on an unknown value, Value what a record looks
--                                 like to it, Store the calls of a store, Open its opening. Valid and Sound
--                                 say what the check accepts, Counted what the status counts, Durable and
--                                 its children what a database holds after any calls, Shrunk, Grown,
--                                 Changed and Local what it changes by itself, Merged and its children
--                                 what it takes of the authority.
--   Row                           src/client/row and src/schema/types.ts: rows as an application of the
--                                 log. Normalization, Keys, State and Interpreters have the functions;
--                                 Normal, Table, Total and Typed the properties.
--   Client                        src/client: Session has the loop of `runSyncSession` over its ports,
--                                 Retry `syncWithRetry`, Queue `requestSync` and its loop, with what it
--                                 serves, View the view of replica-view.ts with the queue of its
--                                 refreshes, Transport the transports of transport.ts over a
--                                 `fetch`, Config the choice of one by a configuration, and Operations
--                                 the calls of client.ts and database.ts over the ports of a client.
--                                 Create puts a client together over the store of IndexedDb.
--                                 Coherent, Exchange with Problem, Accepted and Shown are the properties,
--                                 and Proposing is what Accepted asks of a store.
--   Replay, System                what a log means for a state, and both sides together: Authority and Late
--                                 have the authority's answers, however late they arrive, at the
--                                 replicas, Growing what its taking of an outbox keeps, and Session a
--                                 session of the client that has the authority to itself: its ports are
--                                 the stored record and the server, called directly. Its children
--                                 have a round, when it is the last, and how the session ends.
--   Base, Tests                   shared helpers; a counter as an application, with runs of both sides.
--
-- How the code is read:
--
--   - A throw is the value `err` of `Result`, a statement that may throw an action of its monad.
--   - `synchronize` returns the result beside the server, so that what an error leaves is stated. All that
--     may throw in it is in `respond`, which reads the server and changes a staged transition only.
--   - Sequence numbers are natural numbers, so the code's tests for fractions and negative numbers have no
--     counterpart; the tests against `Number.MAX_SAFE_INTEGER` are kept.
--   - A `Map` is an association list in insertion order, as a JavaScript map iterates; a `Set` is a list.
--   - The messages of errors keep their fixed words, not the values that are written into them.
--   - Array indexes that the code checks for `undefined` are looked up with `get_elem?`, and the error
--     of the check is kept.
--   - The decimal text of a client sequence number `n` is written with `n + 1` units of fuel, one for each
--     digit. That is enough, since `n` has at most `n + 1` digits.
--   - A value of JSON is a tree. A number is finite, so the code's tests for `NaN` and infinities have no
--     counterpart; a fraction or a negative number stands by the text that JSON writes for it. The
--     language's order of strings, by which fields are sorted, is a parameter. A codec is a pair of
--     functions that may fail, and a codec whose value is not one of JSON is one that fails.
--   - The application's functions (`decide`, `apply`, `applyCommitted`, `applyOptimistic`) are fields of
--     the interpreter records and may fail; the equality of operations is a total test.
--
--   - A value that is read from the browser's database is a tree of JSON to the check, and the typed record
--     to the rest of the code; how the application's values look in it is a parameter. A call of a store
--     is one transaction, which an error leaves without effect.
--   - A text of HTTP is the value of JSON that is written in it; what is not JSON is kept as a text, and a
--     body that is `undefined` is `null`. `fetch` and the headers are parameters.
--   - The calls of a client that is put together are awaited one after the other; what runs between them
--     when they are not is in the steps of View and Queue.
--   - The steps of a view are what runs between two awaits, so that its calls interleave. A listener is a
--     number, and what it does when it is called is not modelled.
--   - Objects have no inherited fields, and an array is dense.
--   - A promise of the client is a function from a world to a result and the next world. The rounds of a
--     session and the attempts of a retry are counted down from their maximum, as the code counts up to it.
--     A session's maximum is enough if it is more than two rounds for each waiting proposal and one for
--     each entry that is not confirmed; otherwise it throws, as the code does.
--
-- Not modelled: the events of the browser's database, the freezing of snapshots, the calling of listeners,
-- and the D1 authority with its routes (src/next). The command line, the schema's
-- discovery and generation, the React binding, examples and tests are not part of the replication core.
pub mod Base
pub mod Json
pub mod Errors
pub mod Protocol
pub mod Limits
pub mod Invariants
pub mod Replay
pub mod Wire
pub mod Server
pub mod Replica
pub mod System
pub mod Tests
pub mod Fingerprint
pub mod Row
pub mod IndexedDb
pub mod Client
