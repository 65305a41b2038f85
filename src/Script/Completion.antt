-- ===== src/Script/Completion.antt =====
-- Scripts that run to their end where every call is answered: rules for their steps.
use solana.Prelude.{
  ◌≡◌, refl, sym, ap, ◌∙◌, Option, none, some, List, [], ◌∷◌, ◌++◌, map, append_assoc, Bytes,
}
use solana.Script.{
  Outcome, done, threw, and_then, Request, State, Script, ◌>>=◌, call, send, push, return, attempt,
  answered, caught, exit_code, Network, TransactionMeta,
}

pub append_nil : {X : Type 0} (xs : List X) → xs ++ [] ≡ xs
append_nil [] = refl
append_nil (x ∷ xs) = ap (λ r. x ∷ r) (append_nil xs)

pub map-append :
    {Cost X : Type 0} (name : Cost → X) (cs ds : List Cost)
    → map name (cs ++ ds) ≡ map name cs ++ map name ds
map-append name [] ds = refl
map-append name (c ∷ cs) ds = ap (λ r. name c ∷ r) (map-append name cs ds)

-- An answer, and what holds of it.
abbrev pub Given : {A Net : Type 0} → (A → Type 0) → Option A × Net → Type 0
Given P (none, net) = ⊥
Given P (some a, net) = P a

abbrev pub Any : {A : Type 0} → A → Type 0
Any a = Unit {0}

-- A transaction that is found and has its metadata.
abbrev pub HasMeta : Option (Option TransactionMeta) → Type 0
HasMeta none = ⊥
HasMeta (some none) = ⊥
HasMeta (some (some meta)) = Unit {0}

-- A network on which no call throws and every transaction is found.
pub record IsAnswering (network : Network) : Type 0 where
  pub rpc : (r : Request) (net : network.Net) → Given Any (network.rpc r net)
  pub confirm_transaction :
      (signature : Bytes) (net : network.Net)
      → Given Any (network.confirm_transaction signature net)
  pub get_transaction :
      (signature : Bytes) (net : network.Net)
      → Given HasMeta (network.get_transaction signature net)
  pub get_balance : (key : _) (net : network.Net) → Given Any (network.get_balance key net)
  pub request_airdrop :
      (key lamports : _) (net : network.Net) → Given Any (network.request_airdrop key lamports net)
  pub get_account_info :
      (key : _) (net : network.Net) → Given Any (network.get_account_info key net)
  pub fetch_registry_config :
      (key : _) (net : network.Net) → Given Any (network.fetch_registry_config key net)
  pub fetch_agent_id : (key : _) (net : network.Net) → Given Any (network.fetch_agent_id key net)

module _ {Net Cost X : Type 0} (name : Cost → X) where
  -- An outcome that did not throw; costs were pushed whose names are `ops` on the way.
  abbrev pub Ended :
      {A : Type 0} → List X → List X → (A → Type 0) → Outcome (State Net Cost) A → Type 0
  Ended before ops P (done a s) = (map name s.costs ≡ before ++ ops) × P a
  Ended before ops P (threw s) = ⊥

  pub record Completes {A : Type 0} (ops : List X) (P : A → Type 0) (m : Script (State Net Cost) A)
      : Type 0 where
    pub after : (s : State Net Cost) → Ended (map name s.costs) ops P (m s)

  Ended-shift :
      {A : Type 0} (P : A → Type 0) (before between ops ops' : List X)
      (o : Outcome (State Net Cost) A)
      → between ≡ before ++ ops
      → Ended between ops' P o
      → Ended before (ops ++ ops') P o
  Ended-shift P before between ops ops' (done a s) e (h, p) =
      (h ∙ ap (λ (x : List X). x ++ ops') e ∙ append_assoc before ops ops', p)
  Ended-shift P before between ops ops' (threw s) e h = h

  Ended-and_then :
      {A B : Type 0} {P : A → Type 0} {Q : B → Type 0} (before ops ops' : List X)
      (o : Outcome (State Net Cost) A) (k : A → Script (State Net Cost) B)
      → Ended before ops P o
      → ((a : A) → P a → Completes ops' Q (k a))
      → Ended before (ops ++ ops') Q (and_then o k)
  Ended-and_then before ops ops' (done a s) k (h, p) g =
      Ended-shift _ before (map name s.costs) ops ops' (k a s) h ((g a p).after s)
  Ended-and_then before ops ops' (threw s) k h g = elim h [ ]

  pub Completes->>= :
      {A B : Type 0} {ops ops' : List X} {P : A → Type 0} {Q : B → Type 0}
      {m : Script (State Net Cost) A} {k : A → Script (State Net Cost) B}
      → Completes ops P m
      → ((a : A) → P a → Completes ops' Q (k a))
      → Completes (ops ++ ops') Q (m >>= k)
  unfolding ◌>>=◌
  Completes->>= {A} {B} {ops} {ops'} {P} {Q} {m} {k} hm hk = record {
    after = λ s. Ended-and_then (map name s.costs) ops ops' (m s) k (hm.after s) hk;
  }

  Ended-answered :
      {A : Type 0} (P : A → Type 0) (before : List X) (s : State Net Cost) (o : Option A × Net)
      → map name s.costs ≡ before
      → Given P o
      → Ended before [] P (answered s o)
  Ended-answered P before s (none, net) e h = elim h [ ]
  Ended-answered P before s (some a, net) e h = (e ∙ sym (append_nil before), h)

  pub Completes-call :
      {A : Type 0} {P : A → Type 0} (c : Net → Option A × Net)
      → ((net : Net) → Given P (c net))
      → Completes [] P (call c)
  unfolding call
  Completes-call c h = record {
    after = λ s. Ended-answered _ (map name s.costs) s (c s.net) refl (h s.net);
  }

  pub Completes-send :
      (rpc : Request → Net → Option Bytes × Net) (request : Request)
      → ((r : Request) (net : Net) → Given Any (rpc r net))
      → Completes [] Any (send rpc request)
  unfolding send
  Completes-send rpc request h = record {
    after = λ s.
        Ended-answered _ (map name s.costs) (record s { sent = s.sent ++ (request ∷ []) })
          (rpc request s.net) refl (h request s.net);
  }

  pub Completes-push : (cost : Cost) → Completes (name cost ∷ []) Any (push {Net = Net} cost)
  unfolding push
  Completes-push cost = record { after = λ s. (map-append name s.costs (cost ∷ []), tt) }

  pub Completes-return : {A : Type 0} (a : A) → Completes [] Any (return {S = State Net Cost} a)
  unfolding return
  Completes-return a = record { after = λ s. (sym (append_nil (map name s.costs)), tt) }

  Ended-caught :
      {A : Type 0} (P : A → Type 0) (before ops : List X) (handler : Script (State Net Cost) A)
      (o : Outcome (State Net Cost) A)
      → Ended before ops P o
      → Ended before ops P (caught handler o)
  Ended-caught P before ops handler (done a s) h = h
  Ended-caught P before ops handler (threw s) h = elim h [ ]

  pub Completes-attempt :
      {A : Type 0} {P : A → Type 0} {ops : List X} {body : Script (State Net Cost) A}
      (handler : Script (State Net Cost) A)
      → Completes ops P body
      → Completes ops P (attempt body handler)
  unfolding attempt
  Completes-attempt {A} {P} {ops} {body} handler h = record {
    after = λ s. Ended-caught P (map name s.costs) ops handler (body s) (h.after s);
  }

  -- What ended has the exit code 0.
  pub Ended-exit_code :
      {A : Type 0} (P : A → Type 0) (before ops : List X) (o : Outcome (State Net Cost) A)
      → Ended before ops P o
      → ((exit_code o).0 ≡ 0) × (map name (exit_code o).1.costs ≡ before ++ ops)
  Ended-exit_code P before ops (done a state) (h, p) = (refl, h)
  Ended-exit_code P before ops (threw state) h = elim h [ ]

  -- A script that pushes no cost, whether it throws or not.
  abbrev pub state_of : {A : Type 0} → Outcome (State Net Cost) A → State Net Cost
  state_of (done a s) = s
  state_of (threw s) = s

  pub record Keeps {A : Type 0} (m : Script (State Net Cost) A) : Type 0 where
    pub after : (s : State Net Cost) → map name (state_of (m s)).costs ≡ map name s.costs

  kept_answered :
      {A : Type 0} (s : State Net Cost) (o : Option A × Net)
      → map name (state_of (answered s o)).costs ≡ map name s.costs
  kept_answered s (none, net) = refl
  kept_answered s (some a, net) = refl

  pub Keeps-call : {A : Type 0} (c : Net → Option A × Net) → Keeps (call c)
  unfolding call
  Keeps-call c = record { after = λ s. kept_answered s (c s.net) }

  pub Keeps-return : {A : Type 0} (a : A) → Keeps (return a)
  unfolding return
  Keeps-return a = record { after = λ s. refl }

  kept_after :
      {A B : Type 0} (o : Outcome (State Net Cost) A) (k : A → Script (State Net Cost) B)
      → ((a : A) → Keeps (k a))
      → map name (state_of (and_then o k)).costs ≡ map name (state_of o).costs
  kept_after (done a s) k h = (h a).after s
  kept_after (threw s) k h = refl

  pub Keeps->>= :
      {A B : Type 0} {m : Script (State Net Cost) A} {k : A → Script (State Net Cost) B}
      → Keeps m
      → ((a : A) → Keeps (k a))
      → Keeps (m >>= k)
  unfolding ◌>>=◌
  Keeps->>= {A} {B} {m} {k} hm hk = record { after = λ s. kept_after (m s) k hk ∙ hm.after s }

  recovered :
      {A : Type 0} (before : List X) (a : A) (o : Outcome (State Net Cost) A)
      → map name (state_of o).costs ≡ before
      → Ended before [] Any (caught (return a) o)
  unfolding return
  recovered before a (done b s) h = (h ∙ sym (append_nil before), tt)
  recovered before a (threw s) h = (h ∙ sym (append_nil before), tt)

  -- What is tried ends, however the network answers, where the handler returns.
  pub Completes-recover :
      {A : Type 0} {body : Script (State Net Cost) A} (a : A)
      → Keeps body
      → Completes [] Any (attempt body (return a))
  unfolding attempt
  Completes-recover {A} {body} a h = record {
    after = λ s. recovered (map name s.costs) a (body s) (h.after s);
  }
