-- ===== src/AtomIdl/Results.antt =====
-- The events and the results of the ATOM engine as types/atom_engine.ts lays them out.
use solana.Prelude.{[], ◌∷◌}
use solana.AtomIdl.{TypeDef, field, bool, u8, u16, u64, pubkey}

abbrev pub config_initialized : TypeDef
config_initialized = record {
  name = "configInitialized";
  fields = field "authority" pubkey ∷ field "agentRegistryProgram" pubkey ∷ [];
}

abbrev pub config_updated : TypeDef
config_updated = record {
  name = "configUpdated";
  fields = field "authority" pubkey ∷ field "version" u8 ∷ [];
}

abbrev pub revoke_result : TypeDef
revoke_result = record {
  name = "revokeResult";
  fields =
      field "originalScore" u8
      ∷ field "hadImpact" bool
      ∷ field "newTrustTier" u8
      ∷ field "newQualityScore" u16
      ∷ field "newConfidence" u16
      ∷ [];
}

abbrev pub stats_initialized : TypeDef
stats_initialized = record {
  name = "statsInitialized";
  fields = field "asset" pubkey ∷ field "collection" pubkey ∷ [];
}

abbrev pub stats_revoked : TypeDef
stats_revoked = record {
  name = "statsRevoked";
  fields =
      field "asset" pubkey
      ∷ field "client" pubkey
      ∷ field "originalScore" u8
      ∷ field "hadImpact" bool
      ∷ field "newTrustTier" u8
      ∷ field "newQualityScore" u16
      ∷ field "newConfidence" u16
      ∷ [];
}

abbrev pub stats_updated : TypeDef
stats_updated = record {
  name = "statsUpdated";
  fields =
      field "asset" pubkey
      ∷ field "feedbackIndex" u64
      ∷ field "score" u8
      ∷ field "trustTier" u8
      ∷ field "riskScore" u8
      ∷ field "qualityScore" u16
      ∷ field "confidence" u16
      ∷ [];
}

abbrev pub summary : TypeDef
summary = record {
  name = "summary";
  fields =
      field "collection" pubkey
      ∷ field "asset" pubkey
      ∷ field "trustTier" u8
      ∷ field "qualityScore" u16
      ∷ field "riskScore" u8
      ∷ field "confidence" u16
      ∷ field "feedbackCount" u64
      ∷ field "uniqueClients" u64
      ∷ field "diversityRatio" u8
      ∷ field "emaScoreFast" u16
      ∷ field "emaScoreSlow" u16
      ∷ field "loyaltyScore" u16
      ∷ field "firstFeedbackSlot" u64
      ∷ field "lastFeedbackSlot" u64
      ∷ [];
}

abbrev pub update_result : TypeDef
update_result = record {
  name = "updateResult";
  fields =
      field "trustTier" u8
      ∷ field "qualityScore" u16
      ∷ field "confidence" u16
      ∷ field "riskScore" u8
      ∷ field "diversityRatio" u8
      ∷ field "hllChanged" bool
      ∷ [];
}
