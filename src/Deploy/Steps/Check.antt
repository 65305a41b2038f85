-- ===== src/Deploy/Steps/Check.antt =====
-- What the check of scripts/deploy.ts tells: `verifyDeployment` succeeds exactly where the four
-- configurations can be read.
use solana.Prelude.{◌≡◌, refl, Bool, true, false, ◌&&◌, Option, none, some, Pubkey}
use solana.Deploy.{
  AtomConfig, RootConfig, get_root_config_pda, get_validation_config_pda, get_atom_config_pda,
}
use solana.Deploy.Steps.{Setup, verify_deployment, reads}

module _ (s : Setup) (net : s.cluster.Net) where
  -- The four configurations of a deployment can be read: the ATOM engine's, the root, the base registry
  -- that the root names, and that of the validation.
  abbrev pub IsReadable : Type 0
  IsReadable =
      ((atom : AtomConfig) × (s.cluster.fetch_atom_config net
            (get_atom_config_pda s.web3 s.atom_engine_id).0
          ≡ some atom))
      × ((root : RootConfig) × (base : Pubkey) × (collection : Pubkey)
          × (s.cluster.fetch_root_config net (get_root_config_pda s.web3 s.program_id).0
              ≡ some root)
          × (root.base_registry ≡ some base)
          × (s.cluster.fetch_registry_config net base ≡ some collection))
      × ((authority : Pubkey) × (s.cluster.fetch_validation_config net
              (get_validation_config_pda s.web3 s.program_id).0
            ≡ some authority))

  reads-some :
      {V : Type 0} (o : Option V) (k : V → Bool)
      → reads o k ≡ true
      → (v : V) × (o ≡ some v) × (k v ≡ true)
  reads-some none k h = absurd (cc)
  reads-some (some v) k h = (v, refl, h)

  &&-both : (a b : Bool) → (a && b) ≡ true → (a ≡ true) × (b ≡ true)
  &&-both true b h = (refl, h)
  &&-both false b h = absurd (cc)

  pub verify_deployment-IsReadable : verify_deployment s net ≡ true → IsReadable
  unfolding verify_deployment
  verify_deployment-IsReadable h =
      let all = &&-both _ _ h in
      let last = &&-both _ _ all.1 in
      let atom = reads-some _ _ all.0 in
      let root = reads-some _ _ last.0 in
      let base = reads-some _ _ root.2 in
      let registry = reads-some _ _ base.2 in
      let validation = reads-some _ _ last.1 in
      (
        (atom.0, atom.1),
        (root.0, base.0, registry.0, root.1, base.1, registry.1),
        (validation.0, validation.1),
      )

  pub IsReadable-verify_deployment : IsReadable → verify_deployment s net ≡ true
  unfolding verify_deployment
  IsReadable-verify_deployment
        (
          (atom, is_atom),
          (root, base, collection, is_root, is_base, is_collection),
          (validation, is_validation),
        ) =
      rw (is_atom, is_root, is_base, is_collection, is_validation) refl
