-- ===== src/Deploy/Args.antt =====
-- scripts/deploy.ts: `parseArgs` and `getClusterUrl`.
use solana.Prelude.{
  ◌≡◌, Bool, true, false, ◌&&◌, Option, none, some, List, [], ◌∷◌, arith, Bytes, ascii, bytes_eq,
  if◌then◌else◌,
}

pub record DeployConfig : Type 0 where
  pub cluster : Bytes
  pub step : Bytes
  pub wallet_path : Bytes
  pub skip_deploy : Bool

-- `args[i + 1]` counts where it is there and not empty.
abbrev pub truthy : Bytes → Bool
truthy [] = false
truthy (c ∷ cs) = true

-- The loop of `parseArgs`. A flag with a value moves on by two, everything else by one.
unfoldable pub parse_loop : List Bytes → DeployConfig → DeployConfig
parse_loop [] config = config
parse_loop (a ∷ []) config =
    if bytes_eq a (ascii "--skip-deploy")
    then record config { skip_deploy = true }
    else if bytes_eq a (ascii "--full")
    then record config { step = ascii "full" }
    else config
parse_loop (a ∷ v ∷ args) config =
    let rest = parse_loop args in
    let next = parse_loop (v ∷ args) in
    if bytes_eq a (ascii "--cluster") && truthy v
    then rest (record config { cluster = v })
    else if bytes_eq a (ascii "--step") && truthy v
    then rest (record config { step = v })
    else if bytes_eq a (ascii "--wallet") && truthy v
    then rest (record config { wallet_path = v })
    else if bytes_eq a (ascii "--skip-deploy")
    then next (record config { skip_deploy = true })
    else if bytes_eq a (ascii "--full")
    then next (record config { step = ascii "full" })
    else next config

-- The default configuration, with the wallet of the environment or of the home directory.
abbrev pub default_config : Bytes → DeployConfig
default_config wallet_path = record {
  cluster = ascii "localnet";
  step = ascii "full";
  wallet_path = wallet_path;
  skip_deploy = false;
}

unfoldable pub parse_args : List Bytes → Bytes → DeployConfig
parse_args args wallet_path = parse_loop args (default_config wallet_path)

-- `getClusterUrl`; `none` is the error, `api` is web3's `clusterApiUrl`.
unfoldable pub get_cluster_url : (Bytes → Bytes) → Bytes → Option Bytes
get_cluster_url api cluster =
    if bytes_eq cluster (ascii "localnet")
    then some (ascii "http://127.0.0.1:8899")
    else if bytes_eq cluster (ascii "devnet")
    then some (api (ascii "devnet"))
    else if bytes_eq cluster (ascii "mainnet")
    then some (api (ascii "mainnet-beta"))
    else none

-- The arguments that ask for a configuration.
abbrev pub render : DeployConfig → List Bytes
render config =
    ascii "--cluster"
    ∷ config.cluster
    ∷ ascii "--step"
    ∷ config.step
    ∷ ascii "--wallet"
    ∷ config.wallet_path
    ∷ (if config.skip_deploy then ascii "--skip-deploy" ∷ [] else [])

-- The arguments that ask for a configuration with no empty text give that configuration, whatever
-- the environment's wallet is.
parse_args-render :
    (config : DeployConfig) (wallet_path : Bytes)
    → truthy config.cluster ≡ true
    → truthy config.step ≡ true
    → truthy config.wallet_path ≡ true
    → parse_args (render config) wallet_path ≡ config
unfolding parse_args parse_loop
parse_args-render config wallet_path hc hs hw = ground (arith, hc, hs, hw)
