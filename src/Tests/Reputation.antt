-- ===== src/Tests/Reputation.antt =====
-- Histories and feedback on concrete runs of the on-chain program.
use solana.Prelude.{◌≡◌, ◌≢◌, refl, some, ◌∷◌, ascii, arith}
use solana.Registry.Error.{ok}
use solana.Registry.State.{AgentAccount}
use solana.Registry.Accounts.{lookup}
use solana.Registry.World.{World}
use solana.Registry.History.{view, revoked, revoke}
use solana.Registry.Reputation.Handlers.{give_feedback}
use solana.Registry.Program.{Call, process}
use solana.Registry.Guards.Feedback.{Limits}
use solana.Registry.Program.Completeness.{Step-realised}
use solana.Registry.Program.Completeness.Calls.{IsFeedbackCall}
use solana.Registry.Guards.Access.{plain_accounts, register_inner-opens}
use solana.Tests.Demo as D
use solana.Tests.Registry.{w1, w2, w3, agent_in, facts, reach_w3}

limits : Limits D.content
limits = record {
  value_decimals = omega arith;
  score = omega arith;
  tag1 = omega arith;
  tag2 = omega arith;
  feedback_uri = omega arith;
  endpoint = omega arith;
}

other_key : D.owner ≢ D.client
other_key e = absurd (omega (arith, e))

Step-realised_example :
    (call : Call) × IsFeedbackCall call
    × (view (agent_in w3).asset (process D.runtime D.tx call w3).log
        ≡ revoked 0 D.client ∷ view (agent_in w3).asset w3.log)
Step-realised_example =
    Step-realised D.runtime D.genesis w3 D.tx D.agent_account (agent_in w3)
      (revoked 0 D.client ∷ view (agent_in w3).asset w3.log) (λ asset. refl) (refl, refl) reach_w3
      facts.found_w3 facts.plain_w3
      (revoke (view (agent_in w3).asset w3.log) 0 D.client facts.one_feedback_w3)
      (refl, facts.revoke_room_w3)

register_inner-opens_example :
    (v : World D.runtime.Ext) × (agent : AgentAccount) × (give_feedback D.runtime D.tx
        (plain_accounts D.runtime D.tx D.tx D.register D.client)
        D.content
        w2
      ≡ ok v)
    × (lookup D.register.agent_account v.agents ≡ some agent)
    × (agent.asset ≡ D.asset)
    × (agent.feedback_count ≡ 1)
register_inner-opens_example =
    register_inner-opens D.runtime D.tx D.tx D.register (ascii "ipfs://a") D.client D.owner
      D.content w1 w2 (λ asset. refl) facts.ran_w2 refl facts.owner_w2 other_key limits
