-- ===== src/Script.antt =====
-- What the scripts of scripts/ share: a script is a sequence of calls of the network, each of which may
-- throw; it sends requests to programs and collects costs.
pub mod Rules
pub mod Completion
pub mod Measures
use solana.Prelude.{ℕ, Bool, Option, none, some, List, [], ◌∷◌, ◌++◌, Bytes, Pubkey}

-- What a script gives: a value, or a throw; and the state after it.
pub data Outcome (State : Type 0) (A : Type 0) : Type 0 where
  done : A → State → Outcome State A
  threw : State → Outcome State A

abbrev pub Script : Type 0 → Type 0 → Type 0
Script S A = S → Outcome S A

-- A step, and what follows where it does not throw.
abbrev pub and_then : {S A B : Type 0} → Outcome S A → (A → S → Outcome S B) → Outcome S B
and_then (done a s) k = k a s
and_then (threw s) k = threw s

-- `feedbackAuth`, the client's permission to give feedback.
pub record FeedbackAuth : Type 0 where
  pub agent_id : ℕ
  pub client_address : Pubkey
  pub index_limit : ℕ
  pub expiry : ℕ
  pub chain_id : Bytes
  pub identity_registry : Pubkey
  pub signer_address : Pubkey
  pub signature : Bytes

-- An argument of a method.
pub data Argument : Type 0 where
  text : Bytes → Argument
  number : ℕ → Argument
  buffer : Bytes → Argument
  authorisation : FeedbackAuth → Argument

-- An instruction of the Ed25519 program that goes before the call.
pub record Ed25519 : Type 0 where
  pub public_key : Pubkey
  pub message : Bytes
  pub signature : Bytes

-- `program.methods.method(arguments).accounts(..).preInstructions(..).signers(..)`; the wallet of the
-- provider signs too, and pays.
pub record Request : Type 0 where
  pub program : Pubkey
  pub method : Bytes
  pub arguments : List Argument
  pub accounts : List (Bytes × Pubkey)
  pub pre_instructions : List Ed25519
  pub signers : List Pubkey

-- `tx.meta` as far as it is read: the fee, the balances afterwards, the fee payer's first, and the
-- compute units.
pub record TransactionMeta : Type 0 where
  pub fee : ℕ
  pub post_balances : List ℕ
  pub compute_units_consumed : Option ℕ

-- `registryConfig` and `agentAccount` of the identity program, as far as they are read.
pub record RegistryConfig : Type 0 where
  pub authority : Pubkey
  pub collection_mint : Pubkey

-- The network. A call takes time, so that it gives the network as it is afterwards; `none` is a call
-- that throws. A transaction may have changed the network although its `rpc` throws.
pub record Network : Type 1 where
  pub Net : Type 0
  -- `rpc()`: the signature
  pub rpc : Request → Net → Option Bytes × Net
  pub confirm_transaction : Bytes → Net → Option (Unit {0}) × Net
  -- null, or a transaction, which may have no metadata
  pub get_transaction : Bytes → Net → Option (Option (Option TransactionMeta)) × Net
  pub get_balance : Pubkey → Net → Option ℕ × Net
  pub request_airdrop : Pubkey → ℕ → Net → Option Bytes × Net
  -- null, or the data of the account
  pub get_account_info : Pubkey → Net → Option (Option Bytes) × Net
  pub fetch_registry_config : Pubkey → Net → Option RegistryConfig × Net
  -- of the agent account, its `agentId`
  pub fetch_agent_id : Pubkey → Net → Option ℕ × Net

-- The state of a script: the network, the requests that it has sent so far, which no code reads, and
-- the costs that it has pushed.
pub record State (Net Cost : Type 0) : Type 0 where
  pub net : Net
  pub sent : List Request
  pub costs : List Cost

infixl 5 ◌>>=◌ ◌>>◌
-- `await`: what throws ends the script.
unfoldable pub ◌>>=◌ : {S A B : Type 0} → Script S A → (A → Script S B) → Script S B
(step >>= rest) s = and_then (step s) rest

abbrev pub ◌>>◌ : {S A B : Type 0} → Script S A → Script S B → Script S B
step >> rest = step >>= λ _. rest

abbrev pub answered :
    {Net Cost A : Type 0} → State Net Cost → Option A × Net → Outcome (State Net Cost) A
answered s (none, net) = threw (record s { net = net })
answered s (some a, net) = done a (record s { net = net })

-- A call of the network.
unfoldable pub call : {Net Cost A : Type 0} → (Net → Option A × Net) → Script (State Net Cost) A
call c s = answered s (c s.net)

-- A call that sends a request.
unfoldable pub send :
    {Net Cost : Type 0}
    → (Request → Net → Option Bytes × Net)
    → Request
    → Script (State Net Cost) Bytes
send rpc request s = answered (record s { sent = s.sent ++ (request ∷ []) }) (rpc request s.net)

-- `costs.push(cost)`
unfoldable pub push : {Net Cost : Type 0} → Cost → Script (State Net Cost) (Unit {0})
push cost s = done tt (record s { costs = s.costs ++ (cost ∷ []) })

unfoldable pub return : {S A : Type 0} → A → Script S A
return a s = done a s

unfoldable pub throw : {S A : Type 0} → Script S A
throw s = threw s

abbrev pub caught : {S A : Type 0} → Script S A → Outcome S A → Outcome S A
caught handler (done a s) = done a s
caught handler (threw s) = handler s

-- `try { body } catch { handler }`
unfoldable pub attempt : {S A : Type 0} → Script S A → Script S A → Script S A
attempt body handler s = caught handler (body s)

-- `main().then(() => process.exit(0)).catch(() => process.exit(1))`
abbrev pub exit_code : {S A : Type 0} → Outcome S A → ℕ × S
exit_code (done a s) = (0, s)
exit_code (threw s) = (1, s)
