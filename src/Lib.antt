-- ===== src/Lib.antt =====
-- The 8004 agent registry on Solana.
--
-- The repository holds an Anchor program, the registry, and the TypeScript that deploys, tests and
-- measures it. An agent is an account of the registry for one Metaplex Core asset; clients give
-- feedback to it, revoke it, and responders answer. The program keeps no feedback: it emits an event
-- and appends a leaf to one of the agent's three hash chains, so that the events can be checked
-- against the account.
--
-- Parts:
--   Seal and Chain: reputation/seal.rs and reputation/chain.rs of
--     programs/agent-registry-8004/src. `seal_data` and the `_leaf_data` are the byte vectors of the
--     functions of the same names, Keccak is a parameter.
--   Registry: the rest of that program. State has its accounts and events, World the accounts by
--     address with the log of events, Runtime what other programs do (hashes, program addresses,
--     Metaplex Core, the ATOM engine, the clock and the instructions sysvar), all parameters.
--     Identity and Reputation have one function per handler of identity/instructions.rs and
--     reputation/instructions.rs; each checks first what the Anchor constraints of its context
--     (identity/contexts.rs, reputation/contexts.rs) check. Program has the entry points of lib.rs and
--     the states that runs reach, in which other programs change their own accounts between
--     instructions. Effect says what one instruction does, Guards who may do it. History is the
--     abstract view of one asset, the feedbacks, revocations and responses that the events tell;
--     Program.History and Program.Completeness relate the program to it.
--   Helpers: tests/utils/helpers.ts, with web3.js and bn.js as the record Web3; its module Wallets is
--     tests/utils/test-wallets.ts.
--   Recover: scripts/recover-test-wallets.ts. Deploy: scripts/deploy.ts.
--   Script: what the other scripts share. A script is a sequence of calls of the network, in a small
--     monad: a call may throw, `attempt` is try and catch, and the state has the network, the requests
--     sent so far and the costs pushed so far. Rules has the rules for the requests that a script
--     sends, Completion those for its end on a network that answers, Measures those for the amounts of
--     its costs.
--   Costs: the report of scripts/measure-devnet-costs.ts, and in its module Single the cost of one
--     transaction. Measure: the steps of the three scripts, Devnet of
--     scripts/measure-devnet-costs.ts, Exact of scripts/measure-exact-costs.ts and Real of
--     scripts/measure-real-costs.ts.
--   Init: scripts/init-devnet.ts, in Program against the handler of the registry, and
--     scripts/initialize-devnet.ts. The network and the file system are parameters throughout.
--   AtomIdl: types/atom_engine.ts as data, list by list.
--   Tests: concrete runs.
--
-- Conventions: a public key is a number below 2 ^ 256 and a string its bytes; a counter of 64 bits
-- is a number with the overflow check of the source written out, and the one addition that can wrap
-- (`add_i64`, the release profile has no overflow checks) wraps. A handler gives the new state or an
-- error; a failing instruction leaves the state as it was. Fuel is in `fund_batches`, one unit
-- for each key pair, which is enough since every turn takes at least one, and in `decimal`, for
-- numbers of at most twenty digits. An argument of type `[u8; n]` is a list of bytes of any length in
-- the model; `IsFeedbackCall` states the types where an instruction is made.
--
-- Not modelled: rent, fees and compute budgets; account sizes; the archived validation module; what
-- the scripts print and how long they pause; the programs of an earlier layout that the measuring
-- scripts call, which are not in the repository; scripts that only import or export; documentation
-- strings of the ATOM interface. The Ed25519 program rejects a transaction with a wrong signature, so
-- the model has the check of that instruction's data only.
pub mod Prelude
pub mod Seal
pub mod Chain
pub mod Registry
pub mod AtomIdl
pub mod Helpers
pub mod Deploy
pub mod Recover
pub mod Costs
pub mod Script
pub mod Measure
pub mod Init
mod Tests
