-- ===== src/Lib.antt =====
-- A verification library for ArthNeura: the pallets that let agents register, trade data under a
-- commitment, dispute a delivery and be paid, the runtime that joins them, and the off-chain clients
-- that submit to it and keep the keys of agents and the chunks of data.
--
-- The program's parts, and the files that model them:
--   * pallets/pallet-escrow/src/lib.rs (`lock`, `release`, `refund`): Escrow.antt. A record says whose
--     funds are held for whom; the funds themselves are in the reserve of the payer's account.
--   * pallets/pallet-agent-registry/src/lib.rs (six extrinsics, two penalties): AgentRegistry.antt, its
--     data in AgentRegistry/Types.antt. Profiles by DID, the DIDs of each controller, a counter of live
--     agents, the star ledger, and the strikes that lead to a slash of the deposit.
--   * pallets/pallet-vector-db/src/lib.rs (seven extrinsics, the genesis build, the Merkle hasher):
--     VectorDb.antt, its data in VectorDb/Types.antt. It reaches the other pallets only through the traits
--     `AgentLookup`, `ReputationHandler` and `EscrowHandler`, which are fields of its `Config`.
--   * runtime/src/adapters/*.rs and runtime/src/configs/mod.rs: Runtime.antt. The adapters implement those
--     traits by the registry and the escrow pallet, over one shared ledger.
--   * The error enums of the pallets: Errors.antt. What FRAME supplies (origins, `Result`, `ensure!`, the
--     rollback of a failed extrinsic): Frame.antt.
--   * offchain-vector-db/src/merkle.rs and the start of `register_commitment` and `counter_dispute` in
--     offchain-vector-db/src/lib.rs: Offchain.antt, `FsChunkStore`: Offchain/Store.antt, and
--     `slice_file_into_chunks`: Offchain/Slices.antt. How the client cuts a payload into chunks, keeps them,
--     commits to them, and proves a disputed one to the pallet.
--   * The clients of offchain-vector-db/src/lib.rs and offchain-agent-registry/src/lib.rs, one for each extrinsic:
--     Client/Commitments.antt and Client/Agents.antt, over the part they share in Client.antt.
--   * offchain-agent-registry/src/keystore.rs: Identity.antt. `register_or_load_agent` and
--     `bootstrap_new_agent` of offchain-agent-registry/src/lib.rs: Identity/Bootstrap.antt.
--   * offchain-agent-registry/src/bin/register-door.rs: Door.antt, the text of requests in
--     Door/Requests.antt and what is pending in Door/Pending.antt.
--   * offchain-vector-db/src/main.rs: Command.antt for its variables, Command/Actions.antt for its actions.
--
-- State and operations. The storage items of a pallet are the fields of one record, with its events,
-- latest first, and the ledger it works on. A `StorageMap` is an association list (Base/Map.antt). An
-- operation has the name of its Rust function; it takes the block number and the origin where the code
-- reads them, then the arguments of the extrinsic, then the storage, and returns the new storage or
-- the error. The guards stand in the order of the source. A failed extrinsic leaves the storage
-- as it was (`Frame.committed`), which is what FRAME's storage layer does. Histories are lists of calls:
-- AgentRegistry/Calls.antt, VectorDb/Calls.antt (in which the rest of the runtime may change in any way
-- between two calls) and Runtime/History.antt.
--
-- Numbers. DIDs, accounts, hashes and balances are natural numbers; the `u32` counters, scores and block
-- numbers saturate at 4294967295 as `saturating_add` does, and `saturating_sub` is the subtraction of
-- natural numbers. A `BoundedVec` is the list of its items: its bound is checked by the decoder of the
-- call, before the code that is modelled, except for the index of a controller, whose `try_push` is
-- modelled. `as usize` is the truncation to 32 bits that it is in the WASM runtime. All recursion is
-- structural, but for the decimal form of a number (`Door.Pending.decimal`) and the slicing of a file
-- (`Offchain.Slices.slice_from`), which have fuel: one more than the number, and one more than the bytes of
-- the file, which is enough (`Door.Decimal.digits-decimal`, `Offchain.Slices.slice_file_into_chunks-ends`).
--
-- Clients and chain. A client is a function over a node (`Client.Node`): what submitting a transaction does,
-- and what the node says of its chain. Its transactions name a pallet and a call and carry dynamic values, as
-- those of the crate `subxt` do. `Client.Chain.runtime_node` is a node that runs the runtime: it takes a
-- transaction for an extrinsic by those names and the types of the parameters (Client/Dispatch.antt,
-- Client/Arguments.antt), executes it at the current block, and answers with the events. On it the clients
-- are compared with the pallets. The server and the key store pass their state on in the same way: what is
-- pending, and the files of a disk on which operations may fail.
--
-- Parameters. The currency (`ReservableCurrency`, Currency.antt) is a parameter, with the laws that its
-- documentation states in the record `IsReservable`; Currency/Ledger.antt is a ledger that meets them.
-- The host's `blake2_256`, the crate `ml_dsa` and the trees and proofs of the crate `rs_merkle` are
-- parameters of which nothing is assumed, save that a tree's own proofs verify (`Offchain.Honest.IsComplete`),
-- that a signature verifies under the key that made it (`Client.Registration.Agrees`) and that the hash does
-- not collide on two preimages that a theorem names. Of the cipher, the text encodings and JSON of the key
-- store it is assumed that what they encode they decode (`Identity.RoundTrip.RoundTrips`). Of the reads of a
-- file it is assumed what the documentation of `Read` says (`Offchain.Slices.IsReader`). What the clients
-- draw at random is an argument. Existential deposits, fees and transfers outside the three pallets are not
-- modelled, and a client is taken to be the only one that submits while it waits.
--
-- Not modelled: the node (Substrate's client libraries), the runtime API, the genesis presets and
-- benchmarks, pallets/template (the template of a new node, which nothing uses), the weights of
-- pallet-vector-db, and the programs
-- offchain-agent-registry/src/main.rs and offchain-agent-registry/src/bin/register-me.rs, which read their arguments
-- from the environment and call the clients or the server.
pub mod Base
pub mod Errors
pub mod Frame
pub mod Currency
pub mod Escrow
pub mod AgentRegistry
pub mod VectorDb
pub mod Runtime
pub mod Offchain
pub mod Client
pub mod Identity
pub mod Door
pub mod Command
