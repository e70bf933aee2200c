-- ===== src/Lib.antt =====
-- The x402 facilitator canister (rust/facilitator/src). It settles JPYC payments on Polygon for
-- sellers, who pay its fees from a prepaid credit, keeps the payment channels of the batch scheme, and
-- claims what the channels have been charged. A settlement reserves the seller's fee (Credit), takes
-- the lock of its payer and seller (Active) and a nonce of the facilitator's account (Nonce), is
-- recorded at each stage (Settlement) and gives back what it took when it fails. A channel is changed
-- by one call, a compare-and-swap on its revision (Batch), which asks the automatic claims before and
-- after (AutoClaim). The worker of a collection (AutoClaim/Worker) reads its channel, starts a claim,
-- which takes a fee, the lock and a nonce as a settlement does, signs it (Tx), stores it, sends it and
-- asks for its receipt (Rpc).
--
-- Which file models what:
--   Prelude, Text, Map: Rust's Result and Option, texts as lists of bytes, and the ordered stable maps.
--   Crates: the crates hex, sha3 and k256 as a parameter, and what a message brings with it: its
--     caller and time, and what the SQL tables answer.
--   State: the stored records and the state of the canister, a record of its stable maps.
--   Config: the environment, lib.rs (env, optional_env_value, configured_network_profile and on).
--   Admission: require_current_seller_acceptance and require_batch_settlement_enabled_except_fee in
--     lib.rs, with the checks that the latter calls.
--   Hexutil: hexutil.rs; Hexutil/Words and Hexutil/Decimal state what its words stand for.
--   Credit, Active, Nonce: the seller's credit, the lock and the nonces in lib.rs.
--   Settlement/Record: state.rs; Settlement/Store and Settlement/Recovery: insert_settlement,
--     remove_settlement and recover_stale_settlement in lib.rs.
--   Batch/Checks, Batch/Voucher, Batch/Channel: the checks of a channel in batch.rs; Batch/Store,
--     Batch/Writers, Batch/Update: the stored channels, who may change them and batch_update_channel
--     in lib.rs; Batch/Requests and the files under it: the validation of requests in batch.rs, of
--     which Backed and Claimed are proofs, as are the other files of Batch.
--   Fees, Fees/Schedule: the fees of batch operations in lib.rs.
--   Payment: types.rs; Payment/Validation: validate_request in facilitator.rs; Payment/Signer:
--     eip712.rs, and encode_settle_calldata in tx.rs. Payment/Accepted is proofs.
--   Tx, Tx/Abi, Tx/Calls, Tx/Typed, Tx/Eip1559: tx.rs; Tx/Reading and Tx/Arrays are proofs.
--   Rpc, Rpc/Json, Rpc/Decimal, Rpc/Receipts, Rpc/Contracts, Rpc/Outcomes, Rpc/Words: rpc.rs, what
--     it makes of the node's answers; Rpc/Verdicts, Rpc/Logs, Rpc/Settled, Rpc/Sent,
--     Rpc/Monitored and the files under Rpc/Decimal are proofs.
--   AutoClaim, AutoClaim/Hooks, AutoClaim/Journal: the collections, the hooks of the channel store and
--     the journal of an attempt in auto_claim.rs; AutoClaim/Policy: set_enabled, request_claim and
--     status; AutoClaim/Claims and AutoClaim/Reservations are proofs.
--   AutoClaim/Worker: run, prepare and resume in auto_claim.rs. Under it Monitor and Start are run,
--     Prepare is prepare, Resume is resume, and Turn is what dispatch does around them. Elsewhere and
--     Steps say what may happen while the worker waits; the other files are proofs.
--   Examples: concrete inputs.
--
-- A function that changes the state takes it and returns it. An error is a value of Result. A trap is
-- the value none, or trapped in Settlement/Recovery: the canister then keeps the state it had. Integers
-- are natural numbers; where the source saturates or wraps, so does the model (sat_u64, % 2 ^ 16). The
-- loops are structural, but for the printing of a number, carry_loop and digits_onto, which run on fuel;
-- the theorems about uint256_hex_decimal_word and to_decimal show that it is enough.
--
-- An async function is cut at its awaits: a turn of a worker goes from the answer that it waits for to
-- its next wait, which a phase names with the variables that live across it. Between two turns of one
-- worker come the messages and the workers of other channels, as steps that leave its stored attempt
-- alone, and the loss of the worker, as by an upgrade, after which it begins anew.
--
-- Parameters: Crates (hex, sha3, k256's recovery of a key), Signer (k256's signing of a digest and the
-- list encoding of rlp), SerdeJson (parsing and printing of JSON) and PayloadReader (serde's reading of
-- a batch payload from JSON).
--
-- Not modelled: the HTTP outcalls themselves (their answers are inputs), timers and the choice of what
-- is due, candid encoding, the SQL tables, the HTTP routes and the settlement flow across its awaits,
-- and the TypeScript clients.
pub mod Active
pub mod Admission
pub mod AutoClaim
pub mod Batch
pub mod Config
pub mod Crates
pub mod Credit
pub mod Examples
pub mod Fees
pub mod Hexutil
pub mod Map
pub mod Nonce
pub mod Payment
pub mod Prelude
pub mod Rpc
pub mod Settlement
pub mod State
pub mod Text
pub mod Tx
