-- ===== src/Lib.antt =====
-- Verification of the Faber runtime: how a distributed execution is admitted, prepared, executed
-- and published, and the storage and session state beside it. Paths are from the repository's root.
--
-- The parts and the files that model them:
--   Arena       src/arena.rs: generational slots with a free list (insert, get, get_mut, remove).
--   Intervallum src/intervallum.rs: intervals, their list, lazy walk (Walk), intersection and union
--               (Sets).
--   Kv          src/kv_cache.rs: KvCacheLayout and the byte figures that admission uses.
--   Device      src/device_identity.rs: identity facts, their order and canonical bytes, health
--               epochs; Bytes has the push helpers at the end of that file.
--   Partition   src/partition.rs: the budget ledger, admission against a limit, the lifecycle of a
--               virtual partition, and the partition receipt.
--   Discovery   src/discovery.rs: snapshots of the devices of a machine, their canonical bytes and
--               ids; Sha256 is the hasher in that file. Gguf has the digest of src/gguf.rs, which is
--               written out once more there.
--   DeviceSet   src/device_set.rs: sets of devices, the selections that resolve to them, and the
--               topology with its gate on links.
--   Policy      src/policy.rs: Gates and Memory are the four gates, Rank is the objective pass,
--               Receipt its bytes and fingerprint, Evaluate the evaluator.
--   BoundPlan   src/bound_plan.rs: Admit and Bind are admit and bind, and the rest is the bound plan
--               as the transaction reads it.
--   Session     src/session.rs: sequences, token commits, residency keys and sessions.
--   Transaction src/execution_transaction/: Mirror and Operation are mirror.rs, Reservation is
--               reservation.rs, State is state_machine.rs, errors.rs and receipt.rs, Backend is
--               backend.rs, and the rest is transaction.rs: Plan (new), Check and Prepare
--               (prepare), Execute (execute, execute_operation), Boundary (missing_boundary_refs,
--               refresh_completed_events), Finish (commit, abort), Coordinator (what they share).
--               Transaction.Lifecycle has any sequence of calls over the fake backend.
--   Transport   src/transport.rs: Rejection is validate_before_copy, Rates the expected times,
--               Staging the buffer pool, Peer the pair registry, Errors the errors and their
--               messages, Adapter the two adapters and the receipt.
--
-- How they interact: the policy evaluator resolves a selection over a discovery snapshot, and
-- gates and ranks candidate plans over the topology and the partition budgets. bind checks the
-- bindings of an admitted logical plan against the same snapshot and a device set. A transaction
-- takes a bound plan, whose bindings carry admitted partitions; it checks the plan against their
-- ledgers, drives a backend, and ends in a commit or an abort with a receipt. A transport adapter
-- validates and runs the copy of one transfer of the plan; its errors become errors of the
-- backend. A token commit of a session names a commit boundary of such a transaction.
--
-- How state is modelled: a method that mutates its receiver returns the new record. A call of the
-- transaction takes the state of the backend and returns its end, the transaction and that state;
-- the backend is a record of operations over a state, and the fake backend is an instance of it.
-- An `expect` that fails, and an index out of bounds, is the end `panic` (elsewhere `none`). A
-- clock is an argument, the nanoseconds that it measured. The type of the transport receipt is a
-- parameter, since the transaction only carries it.
--
-- Bounds: words are numbers; the wrap-around at 32 and 64 bits is written out, as in a build
-- without overflow checks. BTreeMap and BTreeSet are association lists in the order of their keys.
-- Texts are lists of bytes. Loops over lists are structural and need no fuel.
--
-- SHA-256 works on blocks of 64 bytes: the loop over blocks has the length of the data as fuel,
-- and the loop that pads has 64; both are proved to be enough by the equality with the reference
-- hasher. sort_by is a stable sort. A decimal number has at most 20 digits, as a word of 64 bits.
--
-- A value of an interval stands as its distance from MIN. The loops over an interval have MAX -
-- MIN + 2 rounds of fuel, proved to be enough for the list, the walk and the intersection; the
-- loops of the union take their fuel as an argument, and as much is enough if one interval holds a
-- value.
--
-- Not modelled: the formatting of values (a backend error's text under {:?} is an argument; the
-- messages of the policy evaluator, of bind and of the transport are modelled), the floating-point
-- tensors and kernels, the tokenizer, frames, files and network.
mod Base
pub mod Bytes
pub mod Device
pub mod Discovery
pub mod Gguf
pub mod Intervallum
pub mod DeviceSet
pub mod Policy
pub mod Arena
pub mod Kv
pub mod Partition
pub mod Session
pub mod BoundPlan
pub mod Transaction
pub mod Transport
mod Examples
