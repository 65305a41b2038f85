-- ===== src/Deploy/Steps/Laws.antt =====
-- What the exit code of scripts/deploy.ts says, and that a deployment that is there is left alone.
use solana.Prelude.{
  ℕ, ◌≡◌, refl, sym, ap, ◌∙◌, ◌⊎◌, inl, inr, Bool, true, false, Option, none, some, arith, Bytes,
  ascii, Bool-cases, ◌↔◌,
}
use solana.Deploy.{get_root_config_pda, get_validation_config_pda, get_atom_config_pda}
use solana.Script.{Outcome, done, threw, and_then}
use solana.Deploy.Args.{DeployConfig, get_cluster_url}
use solana.Deploy.Steps.Check.{
  IsReadable, verify_deployment-IsReadable, IsReadable-verify_deployment,
}
use solana.Deploy.Steps.{
  Setup, initialize_atom_engine, initialize_registry, initialize_validation_config,
  verify_deployment, write_steps, run_steps, exit_code, main, asks, when, read,
}

-- The network after a step.
abbrev pub net_of : {Net A : Type 0} → Outcome Net A → Net
net_of (done a net) = net
net_of (threw net) = net

read-net :
    {Net V A : Type 0} (net : Net) (o : Option V) (k : V → Outcome Net A)
    → ((v : V) → net_of (k v) ≡ net)
    → net_of (read net o k) ≡ net
read-net net none k h = refl
read-net net (some v) k h = h v

and_then-net :
    {Net A B : Type 0} (net : Net) (o : Outcome Net A) (k : A → Net → Outcome Net B)
    → net_of o ≡ net
    → ((a : A) → net_of (k a net) ≡ net)
    → net_of (and_then o k) ≡ net
and_then-net net (done a net1) k h g = ap (λ n. net_of (k a n)) h ∙ g a
and_then-net net (threw net1) k h g = h

module _ (s : Setup) (net : s.cluster.Net) where
  -- The three accounts of a deployment are there.
  abbrev pub IsDeployed : Type 0
  IsDeployed =
      (s.cluster.exists_account net (get_atom_config_pda s.web3 s.atom_engine_id).0 ≡ true)
      × (s.cluster.exists_account net (get_root_config_pda s.web3 s.program_id).0 ≡ true)
      × (s.cluster.exists_account net (get_validation_config_pda s.web3 s.program_id).0 ≡ true)

  when-net :
      {A : Type 0} (b : Bool) (step : s.cluster.Net → Outcome s.cluster.Net A)
      → net_of (step net) ≡ net
      → net_of (when s b net step) ≡ net
  when-net true step h = and_then-net net (step net) (λ _ net'. done tt net') h (λ _. refl)
  when-net false step h = refl

  atom_engine-net :
      s.cluster.exists_account net (get_atom_config_pda s.web3 s.atom_engine_id).0 ≡ true
      → net_of (initialize_atom_engine s net) ≡ net
  unfolding initialize_atom_engine
  atom_engine-net h =
      rw h (read-net net (s.cluster.fetch_atom_config net _) (λ _. done tt net) (λ _. refl))

  registry-net :
      s.cluster.exists_account net (get_root_config_pda s.web3 s.program_id).0 ≡ true
      → net_of (initialize_registry s net) ≡ net
  unfolding initialize_registry
  registry-net h = rw h (
      read-net net (s.cluster.fetch_root_config net _) _ (λ root.
        read-net net root.base_registry _ (λ base_registry.
          read-net net (s.cluster.fetch_registry_config net base_registry) _ (λ collection. refl))))

  validation_config-net :
      s.cluster.exists_account net (get_validation_config_pda s.web3 s.program_id).0 ≡ true
      → net_of (initialize_validation_config s net) ≡ net
  unfolding initialize_validation_config
  validation_config-net h =
      rw h (read-net net (s.cluster.fetch_validation_config net _) (λ _. done tt net) (λ _. refl))

  stage-net :
      {A B : Type 0} (b : Bool) (step : s.cluster.Net → Outcome s.cluster.Net A)
      (k : s.cluster.Net → Outcome s.cluster.Net B)
      → net_of (step net) ≡ net
      → net_of (k net) ≡ net
      → net_of (and_then (when s b net step) (λ _ net'. k net')) ≡ net
  stage-net b step k h g =
      and_then-net net (when s b net step) (λ _ net'. k net') (when-net b step h) (λ _. g)

  write_steps-net : (step : Bytes) → IsDeployed → net_of (write_steps s step net) ≡ net
  unfolding write_steps
  write_steps-net step (atom, root, validation) =
      let third : s.cluster.Net → Outcome s.cluster.Net (Unit {0}) = λ net2.
        when s (asks s step (ascii "init-validation")) net2 (initialize_validation_config s) in
      let second : s.cluster.Net → Outcome s.cluster.Net (Unit {0}) = λ net1.
        and_then (when s (asks s step (ascii "init-registry")) net1 (initialize_registry s))
          (λ _ net2. third net2) in
      stage-net (asks s step (ascii "init-atom")) (initialize_atom_engine s) second
        (atom_engine-net atom)
        (stage-net (asks s step (ascii "init-registry")) (initialize_registry s) third
          (registry-net root)
          (when-net (asks s step (ascii "init-validation")) (initialize_validation_config s)
            (validation_config-net validation)))

  exit_code-net :
      (step : Bytes) (o : Outcome s.cluster.Net (Unit {0})) → (exit_code s step o).1 ≡ net_of o
  exit_code-net step (done a n) = refl
  exit_code-net step (threw n) = refl

  exit_code-zero :
      (step : Bytes) (o : Outcome s.cluster.Net (Unit {0})) (n : s.cluster.Net)
      → asks s step (ascii "verify") ≡ true
      → exit_code s step o ≡ (0, n)
      → (o ≡ done tt n) × (verify_deployment s n ≡ true)
  exit_code-zero step (done a m) n h e =
      let same = ap (λ (p : ℕ × s.cluster.Net). p.1) e in
      elim (Bool-cases (verify_deployment s m)) [
        | inl good ↦ (ap (done tt) same, ap (verify_deployment s) (sym same) ∙ good)
        | inr bad ↦ absurd (ground (arith, h, bad, ap (λ (p : ℕ × s.cluster.Net). p.0) e))
      ]
  exit_code-zero step (threw m) n h e =
      absurd (ground (arith, ap (λ (p : ℕ × s.cluster.Net). p.0) e))

  verified-exit_code :
      (step : Bytes) (o : Outcome s.cluster.Net (Unit {0})) (n : s.cluster.Net)
      → asks s step (ascii "verify") ≡ true
      → o ≡ done tt n
      → IsReadable s n
      → exit_code s step o ≡ (0, n)
  verified-exit_code step o n h ended readable =
      rw (ended, h, IsReadable-verify_deployment s n readable) refl

  -- Where the check is asked for, the steps end with exit code 0 and a network exactly if no step that
  -- was asked for threw and left that network, and on it the four configurations can be read: that of
  -- the ATOM engine, the root, the base registry that the root names, and that of the validation.
  pub run_steps-verified :
      (step : Bytes) (net' : s.cluster.Net)
      → asks s step (ascii "verify") ≡ true
      → (run_steps s step net ≡ (0, net'))
        ↔ ((write_steps s step net ≡ done tt net') × IsReadable s net')
  unfolding run_steps
  run_steps-verified step net' h = (
    λ e.
        let out = exit_code-zero step (write_steps s step net) net' h e in
        (out.0, verify_deployment-IsReadable s net' out.1),
    λ (ended, readable). verified-exit_code step (write_steps s step net) net' h ended readable,
  )

  -- With every account there and every configuration readable, all steps are done, without a change.
  write_steps-repeated :
      IsDeployed → IsReadable s net → write_steps s (ascii "full") net ≡ done tt net
  unfolding write_steps initialize_atom_engine initialize_registry initialize_validation_config
  write_steps-repeated (atom, root, validation)
        ((a, is_atom), (r, base, collection, is_root, is_base, is_collection), (v, is_validation)) =
      rw (atom, is_atom, root, is_root, is_base, is_collection, validation, is_validation) refl

  -- Where the three accounts of a deployment are there, no step changes the network, whichever steps
  -- are asked for and however they end; and a full run ends with exit code 0 exactly if the four
  -- configurations can be read, the base registry that the root names among them.
  pub run_steps-deployed :
      (step : Bytes)
      → IsDeployed
      → ((run_steps s step net).1 ≡ net)
        × ((run_steps s (ascii "full") net ≡ (0, net)) ↔ IsReadable s net)
  unfolding run_steps
  run_steps-deployed step h = (
    exit_code-net step (write_steps s step net) ∙ write_steps-net step h,
    (
      λ e. ((run_steps-verified (ascii "full") net refl).0 e).1,
      λ readable.
          (run_steps-verified (ascii "full") net refl).1
            (write_steps-repeated h readable, readable),
    ),
  )

  -- What goes wrong before the steps ends with exit code 0 and no change: a wallet that cannot be
  -- loaded, or a cluster without an address.
  main-setup_fails :
      (api : Bytes → Bytes) (config : DeployConfig) (wallet_loads : Bool)
      → (wallet_loads ≡ false) ⊎ (get_cluster_url api config.cluster ≡ none)
      → main s api config wallet_loads net ≡ (0, net)
  unfolding main
  main-setup_fails api config wallet_loads (inl h) = rw h refl
  main-setup_fails api config true (inr h) = rw h refl
  main-setup_fails api config false (inr h) = refl
