-- ===== src/Lib.antt =====
-- Resolve: the domain crate and the SQLite store.
--
-- A commitment is a piece of work that moves through a fixed state graph. One worker at a time holds
-- its claim, under an epoch that only grows, so that a worker that lost the claim is fenced off. To
-- act on the world the holder asks the store for an execution guard: a reservation of a canonical
-- set of scope keys, which expires no later than the lease of the claim. Admission turns the
-- reservation into held locks together with the outstanding action of the commitment. Goals, scope
-- sets and the structural proposals that split a commitment complete the domain.
--
-- Base        what the other modules share: Boolean tests, `Result` and its chains, methods on
--             `&mut self`, integers, texts, orders, and sorting with removal of duplicates
-- Core        crates/resolve-core/src
--   Types, Equality, Ids, Numbers, Goal, Events      domain.rs: the data, `try_new`, the counters
--   StateMachine       state_machine.rs: `validate_transition`
--   Commitment         domain.rs: `Commitment::new`, `restore`; Commitment/Methods: the methods
--   Guards             guards.rs: `ScopeSet`, `ExecutionGuard`, `reservation_deadline`
--   Planning           planning.rs: proposal shapes; Planning/Acyclic: `validate_acyclic`
--   Error              error.rs
-- Store       crates/resolve-store/src
--   Error              error.rs
--   Sql, Tables        the statements and rows of schema.rs and sqlite.rs; Sql/Select, Unique,
--                      Numbered and Ordered: lemmas on rows
--   Codec, GuardRows   the conversions between columns and domain values of sqlite.rs
--   Tx                 transactions, `append_event`, `current_boot_generation`
--   Guards             `query_guard`, `expire_relevant_reservations`; Guards/Issue: `issue_guard`;
--                      Guards/Admit, Guards/Admit/Apply: `admit_guard` and its internal form;
--                      Guards/Invalidate: `invalidate_guard`; Guards/Locks, Fence, Reserved,
--                      Invalidated and Guards/Admit/Promotion, Writes, Admission: proofs
--   Claims             `record_heartbeat`; Claims/Beats: proofs
--   Recovery           Recovery/Expiry: `process_expired_claims`;
--                      Recovery/Cascade: `complete_composite_barrier_cascade`; Recovery/Release:
--                      `recover_without_action`; Recovery/Expired, Ends: proofs
--   Outcomes           guards and locks after an outcome; Outcomes/Record: `record_tethers_outcome`;
--                      Outcomes/Writes, Recorded, Recording, Replay: proofs
--   Descriptions       `validate_commitment_event` and what it reads of an event
--   Goals              `insert_goal`, `persist_goal_change`, `load_goal_record`; Goals/Saved: proofs
--   Commitments        `insert_commitment` and the child rows; Commitments/Claim:
--                      `validate_claim_persistence`; Commitments/Change: `persist_commitment_change`;
--                      Commitments/Load: `load_commitment`; Commitments/Rules, Children, Saved,
--                      Loaded, Ends: proofs
--   Protocol           the calls of the guard protocol and their runs; Protocol/Keeps, Guards,
--                      Recovery, Cascade, Runs, Log, Locks: proofs; Protocol/Locks/Refine: the locks
--                      as an abstract lock table; Protocol/Locks/Survive: locks that nothing may take
-- Tests       runs at concrete inputs, and each theorem at an input that meets its hypotheses
--
-- A method on `&mut self` is a function from the commitment to its result and the commitment as it
-- is left, also where it fails. A transaction is a function from the database to an error or a value
-- and the new database; on an error, or where the code returns without `commit`, the database stays
-- as it was. A call into SQLite is a function on lists of rows: a statement that names a primary key
-- or a UNIQUE group that is there already fails. Foreign keys are checked where an inserted commitment
-- names its goal, its parent and its prerequisites; the other statements insert a row after the one
-- it refers to. The id of an event is its place in the log, as AUTOINCREMENT gives it in a table that
-- nothing is deleted from.
--
-- A property of the calls of the guard protocol is stated once as a relation between two databases,
-- which each statement is shown to keep; the transactions then keep it by their shape, and so does a
-- run of them. What only one call may do, as to reserve, hold or release a lock, is asked of the
-- relation for that call alone.
--
-- A `u64` is a natural number, and each checked operation refuses to pass 2^64; an INTEGER column is
-- an integer, and a number is stored only below 2^63. A `String` is the list of its code points, in
-- whose order strings compare as their UTF-8 bytes do. A JSON column holds the text that serde_json
-- writes for a value, another text that it reads as that value, or a text that it refuses; that the
-- text which is written reads as its value is the documented behaviour of serde_json. Sorting is insertion; all sorts agree here,
-- since keys that compare equal are equal. The iteration order of the `HashSet` of expired guards is
-- that of insertion.
--
-- `visit` of `validate_acyclic` takes fuel, one more than the number of the entries of the graph. It
-- is enough, because each nested call follows one that coloured a fresh key of the graph; without
-- enough of it `validate_acyclic` would have no result. The worklist
-- of `complete_composite_barrier_cascade` takes one turn for the child that was completed and one per
-- commitment: a parent is pushed only when its counted update completes it, so that the turns stay
-- within the number of commitments.
--
-- Not modelled: opening a database, pragmas and migrations, which are I/O and SQL text; attention
-- items and the persistence of structural proposals in sqlite.rs; the start-up recovery and the
-- validation of a database that was stored before; service.rs and crates/resolve-transport, which
-- forward to the store; `Display` impls, which format text (an error message is kept as its parts).
pub mod Base
pub mod Core
pub mod Store
pub mod Tests
