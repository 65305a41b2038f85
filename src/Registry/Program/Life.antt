-- ===== src/Registry/Program/Life.antt =====
-- The life of one agent account over a run of the program, whatever the run starts from.
use solana.Prelude.{
  ◌≤◌, ◌≢◌, default_key, ◌≡◌, refl, sym, ap, ◌∙◌, true, some, inl, inr, arith, Pubkey, ==_iff, ◌==◌,
  Bool-cases,
}
use solana.Registry.State.{AgentAccount, MetadataEntryPda}
use solana.Registry.Accounts.{lookup, lookup-insert_self, lookup-insert_ne}
use solana.Registry.Runtime.{Runtime}
use solana.Registry.World.{World}
use solana.Registry.Replay.{Kind, count_of, Kept}
use solana.Registry.Effect.{KeepsImmutable, Touch, Open, Outcome, touched, opened, aside}
use solana.Registry.Program.{Reaches, start, instruction, outside}
use solana.Registry.Program.Outcomes.{process-Outcome, still}

Kept-refl : (g : AgentAccount) → Kept g g
Kept-refl g = ground arith

Kept-trans : (g h k : AgentAccount) → Kept g h → Kept h k → Kept g k
Kept-trans g h k a b = record {
  collection = b.collection ∙ a.collection;
  creator = b.creator ∙ a.creator;
  asset = b.asset ∙ a.asset;
  bump = b.bump ∙ a.bump;
  atom_enabled = λ e. b.atom_enabled (a.atom_enabled e);
  parent_locked = λ e. b.parent_locked (a.parent_locked e);
  parent_asset = λ e. b.parent_asset (a.parent_locked e) ∙ a.parent_asset e;
  col_locked = λ e. b.col_locked (a.col_locked e);
  col = λ e. b.col (a.col_locked e) ∙ a.col e;
}

module _ (rt : Runtime) where
  -- The agent at an address is still there, and what is kept has been kept.
  pub record Survives (key : Pubkey) (old : AgentAccount) (w : World rt.Ext) : Type 0 where
    pub now : AgentAccount
    pub found : lookup key w.agents ≡ some now
    pub kept : Kept old now
    pub grown : (k : Kind) → count_of k old ≤ count_of k now

  Survives-Touch :
      (key : Pubkey) (old : AgentAccount) (w w' : World rt.Ext)
      → Touch rt w w'
      → Survives key old w
      → Survives key old w'
  Survives-Touch key old w w' t s = elim (Bool-cases (t.key == key)) [
    | inl same ↦
        let e = (==_iff t.key key).0 same in
        let was : t.old ≡ s.now = ground (arith, t.found, s.found, e) in
        record {
          now = t.new;
          found = rw (t.stored, sym e) (lookup-insert_self t.key t.new w.agents);
          kept = Kept-trans old t.old t.new (rw was s.kept) t.kept;
          grown = λ k. omega (arith, s.grown k, t.chained.count k, ap (count_of k) was);
        }
    | inr other ↦ record {
      now = s.now;
      found =
          rw t.stored (lookup-insert_ne t.key key t.new w.agents (ground (arith, other)) ∙ s.found);
      kept = s.kept;
      grown = s.grown;
    }
  ]

  Survives-Open :
      (key : Pubkey) (old : AgentAccount) (w w' : World rt.Ext)
      → Open rt w w'
      → Survives key old w
      → Survives key old w'
  Survives-Open key old w w' o s = elim (Bool-cases (o.key == key)) [
    | inl same ↦ let e = (==_iff o.key key).0 same in absurd (ground (arith, o.vacant, s.found, e))
    | inr other ↦ record {
      now = s.now;
      found =
          rw o.stored (lookup-insert_ne o.key key o.new w.agents (ground (arith, other)) ∙ s.found);
      kept = s.kept;
      grown = s.grown;
    }
  ]

  Survives-Outcome :
      (key : Pubkey) (old : AgentAccount) (w w' : World rt.Ext)
      → Outcome rt w w'
      → Survives key old w
      → Survives key old w'
  Survives-Outcome key old w w' (touched t) s = Survives-Touch key old w w' t s
  Survives-Outcome key old w w' (opened o) s = Survives-Open key old w w' o s
  Survives-Outcome key old w w' (aside a) s = record {
    now = s.now;
    found = rw a.stored s.found;
    kept = s.kept;
    grown = s.grown;
  }

  Reaches-Survives :
      (key : Pubkey) (old : AgentAccount) (w w' : World rt.Ext)
      → Reaches rt w w'
      → lookup key w.agents ≡ some old
      → Survives key old w'
  Reaches-Survives key old w w' start found = record {
    now = old;
    found = found;
    kept = Kept-refl old;
    grown = λ k. omega arith;
  }
  Reaches-Survives key old w w' (instruction tx call before) found =
      Survives-Outcome key old _ _ (process-Outcome rt tx call _)
        (Reaches-Survives key old w _ before found)
  Reaches-Survives key old w w' (outside ext before) found =
      Survives-Outcome key old _ _ (still rt _ _ refl refl refl)
        (Reaches-Survives key old w _ before found)

  -- An agent that is registered stays registered over any run, with the collection, the creator,
  -- the asset and the bump that it has, and with counts that do not fall.
  pub agent_persists :
      (key : Pubkey) (old : AgentAccount) (w w' : World rt.Ext) (k : Kind)
      → lookup key w.agents ≡ some old
      → Reaches rt w w'
      → (now : AgentAccount) × (lookup key w'.agents ≡ some now)
        × (now.collection ≡ old.collection)
        × (now.creator ≡ old.creator)
        × (now.asset ≡ old.asset)
        × (now.bump ≡ old.bump)
        × (count_of k old ≤ count_of k now)
  agent_persists key old w w' k found r =
      let s = Reaches-Survives key old w w' r found in
      (s.now, s.found, s.kept.collection, s.kept.creator, s.kept.asset, s.kept.bump, s.grown k)

  -- A collection pointer that is locked stays locked and keeps its text over any run.
  pub locked_collection_pointer :
      (key : Pubkey) (old : AgentAccount) (w w' : World rt.Ext)
      → lookup key w.agents ≡ some old
      → old.col_locked ≡ true
      → Reaches rt w w'
      → (now : AgentAccount) × (lookup key w'.agents ≡ some now)
        × (now.col_locked ≡ true)
        × (now.col ≡ old.col)
  locked_collection_pointer key old w w' found locked r =
      let s = Reaches-Survives key old w w' r found in
      (s.now, s.found, s.kept.col_locked locked, s.kept.col locked)

  -- A parent link that is locked stays locked and keeps its parent over any run.
  pub locked_parent :
      (key : Pubkey) (old : AgentAccount) (w w' : World rt.Ext)
      → lookup key w.agents ≡ some old
      → old.parent_locked ≡ true
      → Reaches rt w w'
      → (now : AgentAccount) × (lookup key w'.agents ≡ some now)
        × (now.parent_locked ≡ true)
        × (now.parent_asset ≡ old.parent_asset)
  locked_parent key old w w' found locked r =
      let s = Reaches-Survives key old w w' r found in
      (s.now, s.found, s.kept.parent_locked locked, s.kept.parent_asset locked)

  -- An agent with ATOM enabled has it enabled after any run.
  atom_stays_enabled :
      (key : Pubkey) (old : AgentAccount) (w w' : World rt.Ext)
      → lookup key w.agents ≡ some old
      → old.atom_enabled ≡ true
      → Reaches rt w w'
      → (now : AgentAccount) × (lookup key w'.agents ≡ some now) × (now.atom_enabled ≡ true)
  atom_stays_enabled key old w w' found enabled r =
      let s = Reaches-Survives key old w w' r found in (s.now, s.found, s.kept.atom_enabled enabled)

  immutable-Outcome : (w w' : World rt.Ext) → Outcome rt w w' → KeepsImmutable rt w w'
  immutable-Outcome w w' (touched t) key entry there i r = ap (lookup key) t.metadata ∙ there
  immutable-Outcome w w' (opened o) key entry there i r = ap (lookup key) o.metadata ∙ there
  immutable-Outcome w w' (aside s) key entry there i r = s.immutable key entry there i r

  -- A metadata entry that is immutable, of an asset whose key is not all zero, is there unchanged
  -- after any run: it is neither overwritten nor deleted.
  pub immutable_metadata :
      (key : Pubkey) (entry : MetadataEntryPda) (w w' : World rt.Ext)
      → lookup key w.metadata ≡ some entry
      → entry.immutable ≡ true
      → entry.asset ≢ default_key
      → Reaches rt w w'
      → lookup key w'.metadata ≡ some entry
  immutable_metadata key entry w w' there i r start = there
  immutable_metadata key entry w w' there i r (instruction tx call before) =
      immutable-Outcome _ _ (process-Outcome rt tx call _) key entry
        (immutable_metadata key entry w _ there i r before) i r
  immutable_metadata key entry w w' there i r (outside ext before) =
      immutable_metadata key entry w _ there i r before
