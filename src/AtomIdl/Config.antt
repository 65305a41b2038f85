-- ===== src/AtomIdl/Config.antt =====
-- The configuration account of the ATOM engine as types/atom_engine.ts lays it out.
use solana.Prelude.{List, [], ◌∷◌, ◌++◌}
use solana.AtomIdl.{IdlField, TypeDef, field, bool, u8, u16, u32, pubkey, array}

abbrev pub atom_config_fields_one : List IdlField
atom_config_fields_one =
    field "authority" pubkey
    ∷ field "agentRegistryProgram" pubkey
    ∷ field "alphaFast" u16
    ∷ field "alphaSlow" u16
    ∷ field "alphaVolatility" u16
    ∷ field "alphaArrival" u16
    ∷ field "alphaQuality" u16
    ∷ field "alphaQualityUp" u16
    ∷ field "alphaQualityDown" u16
    ∷ field "alphaBurstUp" u16
    ∷ field "alphaBurstDown" u16
    ∷ field "weightSybil" u8
    ∷ field "weightBurst" u8
    ∷ field "weightStagnation" u8
    ∷ field "weightShock" u8
    ∷ field "weightVolatility" u8
    ∷ field "weightArrival" u8
    ∷ field "diversityThreshold" u8
    ∷ field "burstThreshold" u8
    ∷ field "shockThreshold" u16
    ∷ field "volatilityThreshold" u16
    ∷ field "arrivalFastThreshold" u16
    ∷ field "tierPlatinumQuality" u16
    ∷ field "tierPlatinumRisk" u8
    ∷ field "tierPlatinumConfidence" u16
    ∷ field "tierGoldQuality" u16
    ∷ field "tierGoldRisk" u8
    ∷ field "tierGoldConfidence" u16
    ∷ field "tierSilverQuality" u16
    ∷ field "tierSilverRisk" u8
    ∷ field "tierSilverConfidence" u16
    ∷ field "tierBronzeQuality" u16
    ∷ field "tierBronzeRisk" u8
    ∷ field "tierBronzeConfidence" u16
    ∷ []

abbrev pub atom_config_fields_two : List IdlField
atom_config_fields_two =
    field "coldStartMin" u16
    ∷ field "coldStartMax" u16
    ∷ field "coldStartPenaltyHeavy" u16
    ∷ field "coldStartPenaltyPerFeedback" u16
    ∷ field "uniquenessBonus" u16
    ∷ field "loyaltyBonus" u16
    ∷ field "loyaltyMinSlotDelta" u32
    ∷ field "bonusMaxBurstPressure" u8
    ∷ field "inactiveDecayPerEpoch" u16
    ∷ field "bump" u8
    ∷ field "version" u8
    ∷ field "paused" bool
    ∷ field "padding" (array u8 5)
    ∷ []

abbrev pub atom_config : TypeDef
atom_config = record {
  name = "atomConfig";
  fields = atom_config_fields_one ++ (atom_config_fields_two);
}
