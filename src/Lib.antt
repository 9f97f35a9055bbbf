-- ===== src/Lib.antt =====
-- Models of the Rust crates of terrasync and the theorems that make them correct.
--
-- terrasync copies files between storage systems. A large file that exists at the destination is
-- sent as a delta against the destination's copy, the basis file: the receiver signs the blocks
-- of the basis file, the sender slides a window over the source and answers with block numbers
-- and literal bytes, and the receiver puts the file together. A transfer that is cut off is
-- resumed from a record of the byte intervals that were written. What is on the wire is bounded
-- by a window of byte credits. A license file says which machines may run the program.
--
-- - Base: tests, lists over the native numbers, and machine words.
-- - SyncDelta: crates/sync-delta/src. Rolling is rolling.rs, Tokens the types of lib.rs,
--   Signature is signature.rs, Matcher is matcher.rs and Reconstruct is reconstruct.rs; a method
--   of the source is the function of its name, which takes the old state and returns the new one
--   beside its result. BLAKE3 is the parameter `blake3`.
-- - ByteResume: crates/app/src/byte_resume.rs. Intervals is IntervalSet, Store is ByteResumeStore
--   with its state file and its temporary file as the record `Files`; the success of each call of
--   the file system is the argument `Io`, and serde_json the parameter `Json`. Store/Transfer
--   runs any sequence of calls and restarts.
-- - FlowControl: crates/transport/src/flow_control.rs. Receiver and Sender are the two ledgers;
--   Waiters is the step relation of the callers that wait in `acquire`, Conservation that of one
--   connection with the messages on its wire.
-- - Licensing: crates/licensing/src. Crypto is crypto_utils.rs with the cryptographic libraries
--   as the record `Primitives`, Clock is clock.rs, Sentinel is sentinel.rs, Verify is verify.rs
--   and Activate is activate.rs. A call takes the license file and the sentinels as a `Machine`,
--   and the time, the fingerprint and the errors of its writes as a `World`; the parts of one
--   handler are functions in the order of its steps.
-- - Transport: crates/transport/src/message.rs. Handshake is the negotiation of versions and
--   features; DestIndex is the index of the destination's directory that decides how a source is
--   transferred and which entries are orphans, with data-mover's entries as the parameter
--   `Observed`; Framing is quic/framing.rs with bincode and zstd as the parameter `Codec`.
-- - Inventory: crates/app/src/remote_inventory.rs, crates/transport/src/directory.rs and NdxTable
--   of message.rs. The task that fills the channel is a function from what the traversal delivers
--   to what it sends.
-- - Advertisement: crates/app/src/remote_advertisement.rs and its events of
--   crates/transport/src/message.rs. Sender is advertise_remote, Receiver the validator; the
--   tests and recursive calls of a loop are helpers that take the rest of the loop as an
--   argument.
-- - Scan: crates/app/src/scan. Counts is statistics.rs with what the storage library's counters
--   by kind offer as the parameters `Kinds` and `KindLaws`; Progress is progress.rs, whose calls
--   return the progress and the snapshot together; Progress/Account is the account of the
--   directories that the calls were about.
-- - Web: crates/web/src/domain. Status is the enumerations of task.rs and execution.rs with their
--   texts.
-- - TaskModel: crates/task-model/src/event.rs, the messages between the stages of a task and the
--   classification of a change; the constructors of EntryChange are `created` and `altered`,
--   since a message is `new` or `changed` already.
-- - Statistics: crates/app/src/consumer/stats/accumulator.rs. Ranges is the classes of sizes and
--   ages, Counters is ErrorStats and DeltaCounts, Full is FullStats and Incremental is
--   IncrementalStats; where a field has the name of a message the model has another, as `created`
--   for `new`. Clock, floating point and the lower case of a text are the parameter `Observer`.
-- - Diagnostics: crates/app/src/consumer/stats/diagnostics.rs. Text is the redaction, Outbox the
--   queue with the batch in flight, Recovery callback_state.rs and recovery_progress.rs; a
--   round's number is one of 1970 or later; BLAKE3 is the parameter `blake3_hex`.
--
-- Bytes and words are numbers. A byte string is a list of numbers, and a theorem that needs them
-- below 256 says so. The wrap-around of u32 and u64 is written out with `u32` and `u64`. The
-- loops of the matcher and of the signatures run on fuel, which is the number of bytes left:
-- every round takes one at least, and the theorems show that what comes out is that of a
-- description without fuel.
--
-- Not modelled: the storage backends, sockets, databases, the web services and the command line,
-- which are input and output around these parts; locks, whose critical sections are single steps
-- here; the text of error messages; and the names of state files. The scan database is not
-- modelled either.
pub mod Base
pub mod SyncDelta
pub mod ByteResume
pub mod FlowControl
pub mod Licensing
pub mod Transport
pub mod Web
pub mod Diagnostics
pub mod TaskModel
pub mod Statistics
pub mod Scan
pub mod Inventory
pub mod Advertisement
