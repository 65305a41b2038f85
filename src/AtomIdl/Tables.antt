-- ===== src/AtomIdl/Tables.antt =====
-- The account types, the events and the errors of the ATOM engine as types/atom_engine.ts lists
-- them.
use solana.Prelude.{[], ◌∷◌, List}
use solana.AtomIdl.{Tagged, IdlError}

abbrev pub accounts : List Tagged
accounts =
    (record {
      name = "atomConfig";
      discriminator = 239 ∷ 137 ∷ 245 ∷ 161 ∷ 255 ∷ 250 ∷ 190 ∷ 145 ∷ [];
    })
    ∷ (record {
      name = "atomStats";
      discriminator = 190 ∷ 187 ∷ 50 ∷ 59 ∷ 203 ∷ 39 ∷ 136 ∷ 244 ∷ [];
    })
    ∷ []

abbrev pub events : List Tagged
events =
    (record {
      name = "configInitialized";
      discriminator = 181 ∷ 49 ∷ 200 ∷ 156 ∷ 19 ∷ 167 ∷ 178 ∷ 91 ∷ [];
    })
    ∷ (record {
      name = "configUpdated";
      discriminator = 40 ∷ 241 ∷ 230 ∷ 122 ∷ 11 ∷ 19 ∷ 198 ∷ 194 ∷ [];
    })
    ∷ (record {
      name = "statsInitialized";
      discriminator = 93 ∷ 122 ∷ 104 ∷ 161 ∷ 105 ∷ 216 ∷ 131 ∷ 61 ∷ [];
    })
    ∷ (record {
      name = "statsRevoked";
      discriminator = 79 ∷ 79 ∷ 219 ∷ 18 ∷ 199 ∷ 64 ∷ 242 ∷ 47 ∷ [];
    })
    ∷ (record {
      name = "statsUpdated";
      discriminator = 50 ∷ 144 ∷ 62 ∷ 38 ∷ 140 ∷ 148 ∷ 117 ∷ 62 ∷ [];
    })
    ∷ []

abbrev pub errors : List IdlError
errors =
    (record { code = 6000; name = "invalidScore"; msg = "Invalid score: must be 0-100" })
    ∷ (record {
      code = 6001;
      name = "unauthorized";
      msg = "Unauthorized: only authority can perform this action";
    })
    ∷ (record {
      code = 6002;
      name = "unauthorizedCaller";
      msg = "Unauthorized caller: only agent-registry can update stats";
    })
    ∷ (record {
      code = 6003;
      name = "configAlreadyInitialized";
      msg = "Config already initialized";
    })
    ∷ (record { code = 6004; name = "paused"; msg = "Engine is paused" })
    ∷ (record {
      code = 6005;
      name = "statsNotInitialized";
      msg = "Stats not initialized: call initialize_stats first";
    })
    ∷ (record {
      code = 6006;
      name = "notAssetOwner";
      msg = "Not asset owner: only the Metaplex Core asset holder can initialize stats";
    })
    ∷ (record {
      code = 6007;
      name = "invalidAsset";
      msg = "Invalid asset: cannot read owner from asset data";
    })
    ∷ (record {
      code = 6008;
      name = "invalidCollection";
      msg = "Invalid collection: must be owned by Metaplex Core program";
    })
    ∷ (record {
      code = 6009;
      name = "assetNotInCollection";
      msg = "Asset not in a collection: UpdateAuthority must be Collection type";
    })
    ∷ (record {
      code = 6010;
      name = "collectionMismatch";
      msg = "Collection mismatch: asset belongs to a different collection";
    })
    ∷ (record {
      code = 6011;
      name = "invalidAssetType";
      msg = "Invalid asset type: expected Metaplex Core AssetV1";
    })
    ∷ (record {
      code = 6012;
      name = "invalidConfigParameter";
      msg = "Invalid config parameter: value out of allowed bounds";
    })
    ∷ (record {
      code = 6013;
      name = "feedbackNotFound";
      msg = "Feedback not found in ring buffer (may be too old)";
    })
    ∷ (record { code = 6014; name = "alreadyRevoked"; msg = "Feedback already revoked" })
    ∷ []
