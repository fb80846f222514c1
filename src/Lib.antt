-- ===== src/Lib.antt =====
-- Verification of the core of gas-analyzer (crates/core, with parts of crates/wasm) and of the job loops of its indexer (crates/indexer-service).
--
-- The program turns the trace of a transaction into a list of state updates (stores, calls, logs
-- and creates) that a handler contract replays, prices that list, and encodes it. The parts:
--
-- - Types, Types/Tag: the updates and their tags (crates/core/src/types.rs).
-- - Evm, Failure: the fields of a struct log that the code reads, and how extraction fails. An
--   opcode that the code compares with has its own constructor.
-- - Trace: one step of a trace (crates/core/src/trace.rs, `copy_memory` to
--   `append_state_update_from_struct_log`). The `match` on the opcode is `decode_op`, which gives
--   what the step pushes or skips; every `expect`, every index out of bounds and every `bail!` is
--   a `Failure`. `hex::decode_to_slice` is a parameter.
-- - Extract: the loop of `compute_state_updates`. Its local variables are the record `Walk`; the
--   parts of its body are `enter_callee`, `resume_create`, `detect_reentry`, `leave_calls` and
--   `extract_op`, composed in that order by `step`. The loop runs over the list of logs, so it
--   needs no fuel. Extract/Tree holds the abstract view: the tree of frames that a trace comes
--   from, and the effects of its root's scope.
-- - Encoding: the ABI bytes of a program (crates/core/src/encoding.rs). The bytes of one struct are
--   alloy's, the parameter `AbiSequence`; Encoding/Abi is a reader of the format that shares no
--   code with the writer.
-- - Merkle: the tree over the leaves of a nested settlement (crates/core/src/nested.rs,
--   `hash_pair` to `merkle_proof`); keccak256 is a parameter. The two loops take the number of
--   leaves as fuel, which is enough since each level is shorter than the one below.
-- - Settlement: the leaves of a settlement and the encoding of a frame tree (crates/core/src/nested.rs,
--   `root_leaf` to `expiry_leaf` and `encode_frame_tree`). The record `Codec` holds what other crates
--   compute: the two hashes and the ABI encodings. It uses Encoding for a frame's program and Merkle for
--   the tree.
-- - FrameTree: the frame programs of a trace that was split, and what is done with them afterwards
--   (crates/core/src/nested.rs, `drop_descendants_of_dropped`, `depth_of`, `native_call_gas`,
--   `compact`, `frame_tree_total`, `unnested_owned`). The loop of `depth_of` takes the number of
--   programs as fuel, which is enough where parents stand before their children.
-- - Split: the split of a trace into frame programs (crates/core/src/nested.rs, `scan_candidates`,
--   `split_frame_tree` and `prune_unprofitable`). Split holds the types of the two walks; Split/Scan
--   is the pre-pass that finds the candidates, Split/Images the storage images and the slices,
--   Split/Close entering and closing frames, Split/Dispatch the `match` on the opcode, Split/Walk the
--   whole walk with its end and its front ends, and Split/Prune the pruning. The local variables of
--   the walk are the record `SplitWalk`, with the top frame first. The loop that closes frames takes
--   one more than the number of frames as fuel (Split/Fuel, Split/Ends). keccak256 and the decoder of
--   hexadecimal text are parameters. Split/Agree holds the invariant: what a frame believes to have emitted is what the
--   last store of the slot in its program writes; Split/Views, Split/Closes, Split/Enters,
--   Split/Steps and Split/Calls show that each part of the loop keeps it.
-- - Heuristic, Heuristic/Operations: the reported estimate, and the counts of a whole trace
--   (crates/core/src/heuristic.rs). Heuristic/Rounds holds the abstract view of the counts.
-- - SimProfile, SimProfile/Gas: the simulation profiles and the gate on the price of applying a
--   payload (crates/core/src/sim_profile.rs).
-- - Signature: the gas floors of the signature schemes and the savings
--   (crates/core/src/encoding.rs); floating-point numbers are a parameter.
-- - CallTracer, Prestate: the net form of a call and when a call has one
--   (crates/core/src/prestate.rs).
-- - Indexer: the jobs of the indexer (crates/indexer-service/src/queue.rs), Indexer/Worker what becomes
--   of a job that is claimed (worker.rs), and Indexer/HeadTracker one round of the loop that follows
--   the chain (head_tracker.rs). What Redis, the store, the node and the analysis answer are
--   arguments. Indexer/Retries follows a job through its claims. Indexer/Rounds and Indexer/Cursor
--   follow the tracker through its rounds, Indexer/Pushed the blocks of the jobs that it pushes, and Indexer/Fanout the
--   transactions of the blocks that it completes. A block of which a push fails is enqueued again from
--   its first job on, the jobs pushed before staying in the queue.
-- - Wasm: the store costs and the starting storage that the WebAssembly front end derives from a
--   prestate diff (crates/wasm/src/lib.rs, `net_sstore_costs` and `original_storage`).
--
-- Extraction feeds the encoding, the estimate and the gate; the estimate and the gate both price
-- the encoded bytes. A `u64` sum wraps (`+64`, as in a build with optimisations) or saturates where
-- the code says so; depths and gas are numbers below 2^64. A `B256`, a `U256` and an address are
-- numbers, bytes are lists of numbers. A hash map is an association list, a `BTreeMap` too, and a
-- `BTreeSet` an ascending list.
--
-- Not modelled: the outcome of a call, the reading of JSON, the messages of errors, and the other
-- crates around the core (simulation, RPC, the rest of the indexer, command line), most of which is
-- input and output.
pub mod Prelude
pub mod Types
pub mod Encoding
pub mod Merkle
pub mod Evm
pub mod Failure
pub mod Trace
pub mod Extract
pub mod Signature
pub mod Heuristic
pub mod SimProfile
pub mod CallTracer
pub mod Prestate
pub mod FrameTree
pub mod Split
pub mod Indexer
pub mod Settlement
pub mod Wasm
