-- ===== src/Registry/Program/Completeness.antt =====
-- Transactions for the steps of a history: what a client sends to the entry points of
-- programs/agent-registry-8004/src/lib.rs to add a feedback, a revocation or a response.
pub mod Calls
use solana.Registry.Program.Completeness.Calls.{
  no_content, to_give, to_revoke, to_respond, zeros, call_for, IsFeedbackCall,
}
use solana.Prelude.{
  ℕ, ◌+◌, ◌<◌, ◌^◌, ◌≡◌, ◌≢◌, refl, sym, ◌∙◌, true, false, none, some, [], ◌∷◌, ◌++◌, arith, Pubkey,
  ==_iff, Bytes, Option, length, replicate,
}
use solana.Prelude.Int.{pos, Fits}
use solana.Seal.{Content}
use solana.Registry.Error.{ok}
use solana.Registry.State.{AgentAccount}
use solana.Registry.Accounts.{lookup}
use solana.Registry.Runtime.{Runtime, Tx}
use solana.Registry.World.{World, agent_seeds, get_core_owner}
use solana.Registry.Replay.{feedback}
use solana.Registry.History.{
  Entry, given, revoked, responded, History, Step, give, revoke, respond, feedbacks, view,
  feedbacks-view,
}
use solana.Registry.Reputation.{GiveFeedback, RevokeFeedback, AppendResponse}
use solana.Registry.Guards.Access.{IsPda, give_feedback-accepts}
use solana.Registry.Guards.Answers.{IsAgent, revoke_feedback-accepts, append_response-accepts}
use solana.Registry.Program.{Call, process, execute, Reaches, IsGenesis}
use solana.Registry.Program.Replay.{Reaches-IsReplayed}

module _ (rt : Runtime) where
  -- What the latest entry of a history asks for: its author signs, the count that it raises has room
  -- and, for a feedback, the live owner of the asset can be read and is another key.
  abbrev pub MayAdd : Tx → World rt.Ext → AgentAccount → History → Type 0
  MayAdd tx w agent [] = ⊥
  MayAdd tx w agent (given index client ∷ h) =
      (tx.signers client ≡ true)
      × (agent.feedback_count + 1 < 2 ^ 64)
      × ((owner : Pubkey) × (get_core_owner rt w.ext agent.asset ≡ ok owner) × (owner ≢ client))
  MayAdd tx w agent (revoked index client ∷ h) =
      (tx.signers client ≡ true) × (agent.revoke_count + 1 < 2 ^ 64)
  MayAdd tx w agent (responded index responder ∷ h) =
      (tx.signers responder ≡ true) × (agent.response_count + 1 < 2 ^ 64)

  module _ (tx : Tx) (w : World rt.Ext) (key : Pubkey) (agent : AgentAccount)
      (there : IsAgent rt tx w agent key agent.asset) (plain : agent.atom_enabled ≡ false) where
    abbrev IsAdded : Entry → Type 0
    IsAdded entry =
        view agent.asset (process rt tx (call_for key agent entry) w).log
        ≡ entry ∷ view agent.asset w.log

    given-IsAdded :
        (index : ℕ) (client owner : Pubkey)
        → tx.signers client ≡ true
        → get_core_owner rt w.ext agent.asset ≡ ok owner
        → owner ≢ client
        → agent.feedback_count + 1 < 2 ^ 64
        → index ≡ agent.feedback_count
        → IsAdded (given index client)
    unfolding process execute view
    given-IsAdded index client owner signed owned other room next =
        rw
          (
            give_feedback-accepts rt tx (to_give key agent client) w agent no_content owner
                (record {
                  signed = signed;
                  found = there.found;
                  address = there.address;
                  asset = refl;
                  collection = refl;
                  authority = refl;
                  plain = plain;
                })
                owned other
                (record {
                  value_decimals = omega arith;
                  score = tt;
                  tag1 = omega arith;
                  tag2 = omega arith;
                  feedback_uri = omega arith;
                  endpoint = omega arith;
                })
                room,
            (==_iff agent.asset agent.asset).1 refl,
            next,
          )
          refl

    revoked-IsAdded :
        (index : ℕ) (client : Pubkey)
        → tx.signers client ≡ true
        → agent.revoke_count + 1 < 2 ^ 64
        → index < agent.feedback_count
        → IsAdded (revoked index client)
    unfolding process execute view
    revoked-IsAdded index client signed room before =
        rw
          (
            revoke_feedback-accepts rt tx w agent (to_revoke key agent client) index zeros there
                signed refl plain before room,
            (==_iff agent.asset agent.asset).1 refl,
          )
          refl

    responded-IsAdded :
        (index : ℕ) (responder : Pubkey)
        → tx.signers responder ≡ true
        → agent.response_count + 1 < 2 ^ 64
        → index < agent.feedback_count
        → IsAdded (responded index responder)
    unfolding process execute view
    responded-IsAdded index responder signed room before =
        rw
          (
            append_response-accepts rt tx w agent (to_respond key agent responder) responder index
                [] zeros zeros there signed before (omega arith) room,
            (==_iff agent.asset agent.asset).1 refl,
          )
          refl

    -- Any step of the history, when the agent counts its feedbacks.
    step_added :
        (h h' : History)
        → h ≡ view agent.asset w.log
        → agent.feedback_count ≡ feedbacks h
        → agent.feedback_count < 2 ^ 64
        → Step h h'
        → MayAdd tx w agent h'
        → (call : Call) × IsFeedbackCall call × (view agent.asset (process rt tx call w).log ≡ h')
    step_added h h' same count small (give k index client next)
          (signed, room, (owner, owned, other)) =
        (
          call_for key agent (given index client),
          (omega arith, omega arith, tt, tt),
          rw same (given-IsAdded index client owner signed owned other room (next ∙ sym count)),
        )
    step_added h h' same count small (revoke k index client before) (signed, room) =
        let given_out : index < agent.feedback_count = omega (arith, before, count) in
        (
          call_for key agent (revoked index client),
          (omega (arith, before, count, small), refl),
          rw same (revoked-IsAdded index client signed room given_out),
        )
    step_added h h' same count small (respond k index responder before) (signed, room) =
        let given_out : index < agent.feedback_count = omega (arith, before, count) in
        (
          call_for key agent (responded index responder),
          (omega (arith, before, count, small), refl, refl),
          rw same (responded-IsAdded index responder signed room given_out),
        )

  -- In every state that is reached from one without agents and events, for a registered agent without
  -- ATOM, where program addresses are made again from their seeds and the bump that was found: every
  -- step of the history of its asset is made by some instruction whose arguments have their types,
  -- when the author of the entry signs, the count that the entry raises stays below 2 ^ 64 and, for a
  -- feedback, the live owner of the asset can be read and is not the author.
  pub Step-realised :
      (w v : World rt.Ext) (tx : Tx) (key : Pubkey) (agent : AgentAccount) (h' : History)
      → IsPda rt
      → IsGenesis rt w
      → Reaches rt w v
      → lookup key v.agents ≡ some agent
      → agent.atom_enabled ≡ false
      → Step (view agent.asset v.log) h'
      → MayAdd tx v agent h'
      → (call : Call) × IsFeedbackCall call × (view agent.asset (process rt tx call v).log ≡ h')
  Step-realised w v tx key agent h' pda genesis r found plain step may =
      let a = (Reaches-IsReplayed rt w v genesis r).agrees key agent found in
      let there : IsAgent rt tx v agent key agent.asset = record {
        found = found;
        address = rw (a.at_bump, a.at_pda) (pda agent.asset);
        same_asset = refl;
      } in
      step_added tx v key agent there plain _ h' refl
        (a.count feedback ∙ sym (feedbacks-view rt.keccak agent.asset v.log)) (a.bounded feedback)
        step may
