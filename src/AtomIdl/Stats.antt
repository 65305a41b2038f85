-- ===== src/AtomIdl/Stats.antt =====
-- The statistics account of the ATOM engine as types/atom_engine.ts lays it out.
use solana.Prelude.{List, [], ◌∷◌, ◌++◌}
use solana.AtomIdl.{IdlField, TypeDef, field, u8, u16, u64, pubkey, array}

abbrev pub atom_stats_fields_one : List IdlField
atom_stats_fields_one =
    field "collection" pubkey
    ∷ field "asset" pubkey
    ∷ field "firstFeedbackSlot" u64
    ∷ field "lastFeedbackSlot" u64
    ∷ field "feedbackCount" u64
    ∷ field "emaScoreFast" u16
    ∷ field "emaScoreSlow" u16
    ∷ field "emaVolatility" u16
    ∷ field "emaArrivalLog" u16
    ∷ field "peakEma" u16
    ∷ field "maxDrawdown" u16
    ∷ field "epochCount" u16
    ∷ field "currentEpoch" u16
    ∷ field "minScore" u8
    ∷ field "maxScore" u8
    ∷ field "firstScore" u8
    ∷ field "lastScore" u8
    ∷ field "hllPacked" (array u8 128)
    ∷ field "hllSalt" u64
    ∷ []

abbrev pub atom_stats_fields_two : List IdlField
atom_stats_fields_two =
    field "recentCallers" (array u64 24)
    ∷ field "burstPressure" u8
    ∷ field "updatesSinceHllChange" u8
    ∷ field "negPressure" u8
    ∷ field "evictionCursor" u8
    ∷ field "ringBaseSlot" u64
    ∷ field "qualityVelocity" u16
    ∷ field "velocityEpoch" u16
    ∷ field "freezeEpochs" u8
    ∷ field "qualityFloor" u8
    ∷ field "bypassCount" u8
    ∷ field "bypassScoreAvg" u8
    ∷ field "bypassFingerprints" (array u64 10)
    ∷ field "bypassFpCursor" u8
    ∷ field "loyaltyScore" u16
    ∷ field "qualityScore" u16
    ∷ field "riskScore" u8
    ∷ field "diversityRatio" u8
    ∷ field "trustTier" u8
    ∷ []

abbrev pub atom_stats_fields_three : List IdlField
atom_stats_fields_three =
    field "tierCandidate" u8
    ∷ field "tierCandidateEpoch" u16
    ∷ field "tierConfirmed" u8
    ∷ field "flags" u8
    ∷ field "confidence" u16
    ∷ field "bump" u8
    ∷ field "schemaVersion" u8
    ∷ []

abbrev pub atom_stats : TypeDef
atom_stats = record {
  name = "atomStats";
  fields = atom_stats_fields_one ++ (atom_stats_fields_two ++ (atom_stats_fields_three));
}
