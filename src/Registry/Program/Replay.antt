-- ===== src/Registry/Program/Replay.antt =====
-- The log of events against the digests and the counts that the accounts hold:
-- programs/agent-registry-8004/src/reputation/instructions.rs over whole runs of the program.
use solana.Prelude.{
  ◌≡◌, ◌≢◌, ◌<◌, ◌^◌, refl, sym, ap, ◌∙◌, none, some, ◌⊎◌, inl, inr, List, [], ◌++◌, arith, Bytes,
  Collision, Pubkey, length, length-append, ==_iff, ◌==◌, Bool-cases,
}
use solana.Chain.{chain_digest, zero_digest}
use solana.Chain.Binding.{chain_digest_binding}
use solana.Registry.State.{AgentAccount, Event}
use solana.Registry.Accounts.{lookup, insert, lookup-insert_self, lookup-insert_ne}
use solana.Registry.Runtime.{Runtime}
use solana.Registry.World.{World}
use solana.Registry.Replay.{
  Kind, domain_of, digest_of, count_of, leaves, leaves-append, chain_digest-append,
}
use solana.Registry.Effect.{
  agent_pda, agent_bump, Touch, Open, Aside, Outcome, touched, opened, aside,
}
use solana.Registry.Program.{Reaches, start, instruction, outside, IsGenesis}
use solana.Registry.Program.Outcomes.{process-Outcome, still}

module _ (rt : Runtime) where
  -- The account of one agent agrees with the log.
  pub record Agrees (key : Pubkey) (g : AgentAccount) (log : List Event) : Type 0 where
    pub at_pda : key ≡ agent_pda rt g.asset
    pub at_bump : g.bump ≡ agent_bump rt g.asset
    pub digest :
        (k : Kind)
        → digest_of k g
          ≡ chain_digest rt.keccak (domain_of k) zero_digest (leaves rt.keccak k g.asset log)
    pub count : (k : Kind) → count_of k g ≡ length (leaves rt.keccak k g.asset log)
    pub bounded : (k : Kind) → count_of k g < 2 ^ 64

  -- Every agent agrees with the log, and an asset without an agent has no leaf in it.
  pub record IsReplayed (w : World rt.Ext) : Type 0 where
    pub agrees :
        (key : Pubkey) (g : AgentAccount) → lookup key w.agents ≡ some g → Agrees key g w.log
    pub unborn :
        (k : Kind) (asset : Pubkey)
        → lookup (agent_pda rt asset) w.agents ≡ none
        → leaves rt.keccak k asset w.log ≡ []

  -- Events without a leaf of the agent's asset do not matter to it.
  more_events :
      (key : Pubkey) (g : AgentAccount) (events log : List Event)
      → ((k : Kind) → leaves rt.keccak k g.asset events ≡ [])
      → Agrees key g log
      → Agrees key g (events ++ log)
  more_events key g events log none_of a = record {
    at_pda = a.at_pda;
    at_bump = a.at_bump;
    digest = λ k. rw (leaves-append rt.keccak k g.asset events log, none_of k) (a.digest k);
    count = λ k. rw (leaves-append rt.keccak k g.asset events log, none_of k) (a.count k);
    bounded = a.bounded;
  }

  -- The agent that has changed.
  Agrees-Touch :
      (w w' : World rt.Ext) (t : Touch rt w w')
      → Agrees t.key t.old w.log
      → Agrees t.key t.new (t.events ++ w.log)
  Agrees-Touch w w' t a = record {
    at_pda = rw t.kept.asset a.at_pda;
    at_bump = rw (t.kept.asset, t.kept.bump) a.at_bump;
    digest = λ k.
        t.chained.digest k
        ∙ ap (λ d. chain_digest rt.keccak (domain_of k) d (leaves rt.keccak k t.old.asset t.events))
            (a.digest k)
        ∙ sym (
            chain_digest-append rt.keccak (domain_of k) zero_digest
              (leaves rt.keccak k t.old.asset t.events) (leaves rt.keccak k t.old.asset w.log))
        ∙ ap (chain_digest rt.keccak (domain_of k) zero_digest) (same_leaves k);
    count = λ k. omega (
      arith,
      t.chained.count k,
      a.count k,
      ap length (same_leaves k),
      length-append (leaves rt.keccak k t.old.asset t.events)
          (leaves rt.keccak k t.old.asset w.log),
    );
    bounded = λ k. t.chained.bounded k (a.bounded k);
  }
    where
      same_leaves :
          (k : Kind)
          → leaves rt.keccak k t.old.asset t.events ++ leaves rt.keccak k t.old.asset w.log
            ≡ leaves rt.keccak k t.new.asset (t.events ++ w.log)
      same_leaves k =
          sym (leaves-append rt.keccak k t.old.asset t.events w.log)
          ∙ ap (λ asset. leaves rt.keccak k asset (t.events ++ w.log)) (sym t.kept.asset)

  -- Another agent of another address.
  same_or_other :
      (key j : Pubkey) (g h : AgentAccount) (w : World rt.Ext)
      → lookup j (insert key g w.agents) ≡ some h
      → ((key ≡ j) × (g ≡ h)) ⊎ ((key ≢ j) × (lookup j w.agents ≡ some h))
  same_or_other key j g h w found = elim (Bool-cases (key == j)) [
    | inl same ↦
        let e = (==_iff key j).0 same in
        inl (e, ground (arith, found, e, lookup-insert_self key g w.agents))
    | inr other ↦ inr (
      ground (arith, other),
      sym (lookup-insert_ne key j g w.agents (ground (arith, other))) ∙ found,
    )
  ]

  -- Nothing at an address after a write, so nothing before, and another address.
  vacant_before :
      (key j : Pubkey) (g : AgentAccount) (w : World rt.Ext)
      → lookup j (insert key g w.agents) ≡ none
      → (key ≢ j) × (lookup j w.agents ≡ none)
  vacant_before key j g w h = elim (Bool-cases (key == j)) [
    | inl same ↦
        let e = (==_iff key j).0 same in
        absurd (ground (arith, h, e, lookup-insert_self key g w.agents))
    | inr other ↦
        (ground (arith, other), sym (lookup-insert_ne key j g w.agents (ground (arith, other))) ∙ h)
  ]

  IsReplayed-Touch : (w w' : World rt.Ext) → Touch rt w w' → IsReplayed w → IsReplayed w'
  IsReplayed-Touch w w' t i = record {
    agrees = λ j h found.
        let a = i.agrees t.key t.old t.found in
        rw t.logged (elim (same_or_other t.key j t.new h w (rw (sym t.stored) found)) [
          | inl (e, same) ↦ rw (sym e, sym same) (Agrees-Touch w w' t a)
          | inr (ne, was) ↦
              let b = i.agrees j h was in
              more_events j h t.events w.log
                (λ k.
                  t.chained.foreign k h.asset
                    (λ same. ne (a.at_pda ∙ ap (agent_pda rt) same ∙ sym b.at_pda)))
                b
        ]);
    unborn = λ k asset h.
        let a = i.agrees t.key t.old t.found in
        let v = vacant_before t.key (agent_pda rt asset) t.new w (rw (sym t.stored) h) in
        rw
          (
            t.logged,
            leaves-append rt.keccak k asset t.events w.log,
            t.chained.foreign k asset (λ same. v.0 (a.at_pda ∙ ap (agent_pda rt) same)),
          )
          (i.unborn k asset v.1);
  }

  IsReplayed-Open : (w w' : World rt.Ext) → Open rt w w' → IsReplayed w → IsReplayed w'
  unfolding chain_digest
  IsReplayed-Open w w' o i = record {
    agrees = λ j h found.
        rw o.logged (elim (same_or_other o.key j o.new h w (rw (sym o.stored) found)) [
          | inl (e, same) ↦
              rw (sym e, sym same)
                (more_events o.key o.new o.events w.log (λ k. o.quiet k o.new.asset)
                  (record {
                    at_pda = o.at_pda;
                    at_bump = o.at_bump;
                    digest = λ k. rw (nothing k) (o.digest k);
                    count = λ k. rw (nothing k) (o.count k);
                    bounded = λ k. omega (arith, o.count k);
                  }))
          | inr (ne, was) ↦
              more_events j h o.events w.log (λ k. o.quiet k h.asset) (i.agrees j h was)
        ]);
    unborn = λ k asset h.
        rw (o.logged, leaves-append rt.keccak k asset o.events w.log, o.quiet k asset)
          (i.unborn k asset
            (vacant_before o.key (agent_pda rt asset) o.new w (rw (sym o.stored) h)).1);
  }
    where
      nothing : (k : Kind) → leaves rt.keccak k o.new.asset w.log ≡ []
      nothing k = i.unborn k o.new.asset (ap (λ j. lookup j w.agents) (sym o.at_pda) ∙ o.vacant)

  IsReplayed-Aside : (w w' : World rt.Ext) → Aside rt w w' → IsReplayed w → IsReplayed w'
  IsReplayed-Aside w w' s i = record {
    agrees = λ j h found. rw s.logged (
        more_events j h s.events w.log (λ k. s.quiet k h.asset)
          (i.agrees j h (rw (sym s.stored) found)));
    unborn = λ k asset h.
        rw (s.logged, leaves-append rt.keccak k asset s.events w.log, s.quiet k asset)
          (i.unborn k asset (rw (sym s.stored) h));
  }

  IsReplayed-Outcome : (w w' : World rt.Ext) → Outcome rt w w' → IsReplayed w → IsReplayed w'
  IsReplayed-Outcome w w' (touched t) = IsReplayed-Touch w w' t
  IsReplayed-Outcome w w' (opened o) = IsReplayed-Open w w' o
  IsReplayed-Outcome w w' (aside s) = IsReplayed-Aside w w' s

  IsReplayed-Genesis : (w : World rt.Ext) → IsGenesis rt w → IsReplayed w
  unfolding lookup leaves
  IsReplayed-Genesis w (agents, log) = record {
    agrees = λ j h found. ground (arith, agents, found);
    unborn = λ k asset h. rw log refl;
  }

  pub Reaches-IsReplayed : (w w' : World rt.Ext) → IsGenesis rt w → Reaches rt w w' → IsReplayed w'
  Reaches-IsReplayed w w' g start = IsReplayed-Genesis w g
  Reaches-IsReplayed w w' g (instruction tx call before) =
      IsReplayed-Outcome _ _ (process-Outcome rt tx call _) (Reaches-IsReplayed w _ g before)
  Reaches-IsReplayed w w' g (outside ext before) =
      IsReplayed-Outcome _ _ (still rt _ _ refl refl refl) (Reaches-IsReplayed w _ g before)

  -- From a state without agents and events, whatever instructions run and whatever other programs
  -- do: each of the three digests of every agent is the chain, from 32 zero bytes and under the
  -- digest's own domain, of the leaves recomputed from the emitted events of the agent's asset.
  pub digest_replayed :
      (w w' : World rt.Ext) (k : Kind) (key : Pubkey) (g : AgentAccount)
      → IsGenesis rt w
      → Reaches rt w w'
      → lookup key w'.agents ≡ some g
      → digest_of k g
        ≡ chain_digest rt.keccak (domain_of k) zero_digest (leaves rt.keccak k g.asset w'.log)
  digest_replayed w w' k key g genesis r found =
      ((Reaches-IsReplayed w w' genesis r).agrees key g found).digest k

  -- From a state without agents and events, whatever instructions run and whatever other programs
  -- do: each of the three counts of every agent is the number of the emitted events of its kind
  -- about the agent's asset and stays below 2 ^ 64, and the agent stands at the program address of
  -- its asset.
  pub count_replayed :
      (w w' : World rt.Ext) (k : Kind) (key : Pubkey) (g : AgentAccount)
      → IsGenesis rt w
      → Reaches rt w w'
      → lookup key w'.agents ≡ some g
      → (count_of k g ≡ length (leaves rt.keccak k g.asset w'.log))
        × (count_of k g < 2 ^ 64)
        × (key ≡ agent_pda rt g.asset)
  count_replayed w w' k key g genesis r found =
      let a = (Reaches-IsReplayed w w' genesis r).agrees key g found in
      (a.count k, a.bounded k, a.at_pda)

  -- Two agents, each in a state reached from one without agents and events, whose digests and counts
  -- of one kind agree have the same leaves of that kind in the two logs, or a collision of Keccak is
  -- at hand; where Keccak gives 32 bytes.
  pub digest_determines_history :
      (keccak_length : (x : Bytes) → length (rt.keccak x) ≡ 32) (w v w' v' : World rt.Ext)
      (k : Kind) (key key' : Pubkey) (g h : AgentAccount)
      → IsGenesis rt w
      → IsGenesis rt v
      → Reaches rt w w'
      → Reaches rt v v'
      → lookup key w'.agents ≡ some g
      → lookup key' v'.agents ≡ some h
      → digest_of k g ≡ digest_of k h
      → count_of k g ≡ count_of k h
      → (leaves rt.keccak k g.asset w'.log ≡ leaves rt.keccak k h.asset v'.log)
        ⊎ Collision rt.keccak
  digest_determines_history keccak_length w v w' v' k key key' g h gw gv rw_ rv fg fh digests
        counts =
      let a = (Reaches-IsReplayed w w' gw rw_).agrees key g fg in
      let b = (Reaches-IsReplayed v v' gv rv).agrees key' h fh in
      chain_digest_binding rt.keccak keccak_length (domain_of k) zero_digest _ _ refl
        (omega (arith, a.count k, b.count k, counts)) (sym (a.digest k) ∙ digests ∙ b.digest k)
