-- ===== src/AtomIdl/Instructions.antt =====
-- The instructions of the ATOM engine as types/atom_engine.ts lists them.
use solana.Prelude.{true, false, none, some, [], ◌∷◌, ascii, List}
use solana.AtomIdl.{
  IdlInstruction, field, u8, u16, pubkey, bool, option, array, defined, constant, account,
}

abbrev pub get_summary : IdlInstruction
get_summary = record {
  name = "getSummary";
  discriminator = 159 ∷ 2 ∷ 226 ∷ 186 ∷ 90 ∷ 59 ∷ 255 ∷ 104 ∷ [];
  accounts =
      (record { name = "asset"; writable = false; signer = false; address = none; pda = none })
      ∷ (record {
        name = "stats";
        writable = false;
        signer = false;
        address = none;
        pda = some (record {
          seeds = constant (ascii "atom_stats") ∷ account "asset" ∷ [];
          program = none;
        });
      })
      ∷ [];
  args = [];
  returns = some (defined "summary");
}

abbrev pub initialize_config : IdlInstruction
initialize_config = record {
  name = "initializeConfig";
  discriminator = 208 ∷ 127 ∷ 21 ∷ 1 ∷ 194 ∷ 190 ∷ 196 ∷ 70 ∷ [];
  accounts =
      (record { name = "authority"; writable = true; signer = true; address = none; pda = none })
      ∷ (record {
        name = "config";
        writable = true;
        signer = false;
        address = none;
        pda = some (record { seeds = constant (ascii "atom_config") ∷ []; program = none });
      })
      ∷ (record {
        name = "programData";
        writable = false;
        signer = false;
        address = none;
        pda = some (record {
          seeds =
              constant (
                140 ∷ 150 ∷ 177 ∷ 101 ∷ 134 ∷ 30 ∷ 94 ∷ 175 ∷ 237 ∷ 65 ∷ 167 ∷ 16 ∷ 7 ∷ 57 ∷ 194
                ∷ 175 ∷ 136 ∷ 253 ∷ 66 ∷ 76 ∷ 73 ∷ 118 ∷ 28 ∷ 98 ∷ 43 ∷ 225 ∷ 136 ∷ 144 ∷ 174 ∷ 180
                ∷ 99 ∷ 169 ∷ [])
              ∷ [];
          program = some (
              2 ∷ 168 ∷ 246 ∷ 145 ∷ 78 ∷ 136 ∷ 161 ∷ 176 ∷ 226 ∷ 16 ∷ 21 ∷ 62 ∷ 247 ∷ 99 ∷ 174 ∷ 43
              ∷ 0 ∷ 194 ∷ 185 ∷ 61 ∷ 22 ∷ 193 ∷ 36 ∷ 210 ∷ 192 ∷ 83 ∷ 122 ∷ 16 ∷ 4 ∷ 128 ∷ 0 ∷ 0
              ∷ []);
        });
      })
      ∷ (record {
        name = "systemProgram";
        writable = false;
        signer = false;
        address = some "11111111111111111111111111111111";
        pda = none;
      })
      ∷ [];
  args = field "agentRegistryProgram" pubkey ∷ [];
  returns = none;
}

abbrev pub initialize_stats : IdlInstruction
initialize_stats = record {
  name = "initializeStats";
  discriminator = 144 ∷ 201 ∷ 117 ∷ 76 ∷ 127 ∷ 118 ∷ 176 ∷ 16 ∷ [];
  accounts =
      (record { name = "owner"; writable = true; signer = true; address = none; pda = none })
      ∷ (record { name = "asset"; writable = false; signer = false; address = none; pda = none })
      ∷ (record {
        name = "collection";
        writable = false;
        signer = false;
        address = none;
        pda = none;
      })
      ∷ (record {
        name = "config";
        writable = false;
        signer = false;
        address = none;
        pda = some (record { seeds = constant (ascii "atom_config") ∷ []; program = none });
      })
      ∷ (record {
        name = "stats";
        writable = true;
        signer = false;
        address = none;
        pda = some (record {
          seeds = constant (ascii "atom_stats") ∷ account "asset" ∷ [];
          program = none;
        });
      })
      ∷ (record {
        name = "systemProgram";
        writable = false;
        signer = false;
        address = some "11111111111111111111111111111111";
        pda = none;
      })
      ∷ [];
  args = [];
  returns = none;
}

abbrev pub revoke_stats : IdlInstruction
revoke_stats = record {
  name = "revokeStats";
  discriminator = 86 ∷ 178 ∷ 106 ∷ 195 ∷ 51 ∷ 236 ∷ 38 ∷ 104 ∷ [];
  accounts =
      (record { name = "payer"; writable = true; signer = true; address = none; pda = none })
      ∷ (record { name = "asset"; writable = false; signer = false; address = none; pda = none })
      ∷ (record {
        name = "config";
        writable = false;
        signer = false;
        address = none;
        pda = some (record { seeds = constant (ascii "atom_config") ∷ []; program = none });
      })
      ∷ (record {
        name = "stats";
        writable = true;
        signer = false;
        address = none;
        pda = some (record {
          seeds = constant (ascii "atom_stats") ∷ account "asset" ∷ [];
          program = none;
        });
      })
      ∷ (record {
        name = "registryAuthority";
        writable = false;
        signer = true;
        address = none;
        pda = none;
      })
      ∷ (record {
        name = "systemProgram";
        writable = false;
        signer = false;
        address = some "11111111111111111111111111111111";
        pda = none;
      })
      ∷ [];
  args = field "clientPubkey" pubkey ∷ [];
  returns = some (defined "revokeResult");
}

abbrev pub update_config : IdlInstruction
update_config = record {
  name = "updateConfig";
  discriminator = 29 ∷ 158 ∷ 252 ∷ 191 ∷ 10 ∷ 83 ∷ 219 ∷ 99 ∷ [];
  accounts =
      (record { name = "authority"; writable = false; signer = true; address = none; pda = none })
      ∷ (record {
        name = "config";
        writable = true;
        signer = false;
        address = none;
        pda = some (record { seeds = constant (ascii "atom_config") ∷ []; program = none });
      })
      ∷ [];
  args =
      field "alphaFast" (option u16)
      ∷ field "alphaSlow" (option u16)
      ∷ field "alphaVolatility" (option u16)
      ∷ field "alphaArrival" (option u16)
      ∷ field "weightSybil" (option u8)
      ∷ field "weightBurst" (option u8)
      ∷ field "weightStagnation" (option u8)
      ∷ field "weightShock" (option u8)
      ∷ field "weightVolatility" (option u8)
      ∷ field "weightArrival" (option u8)
      ∷ field "diversityThreshold" (option u8)
      ∷ field "burstThreshold" (option u8)
      ∷ field "shockThreshold" (option u16)
      ∷ field "volatilityThreshold" (option u16)
      ∷ field "paused" (option bool)
      ∷ [];
  returns = none;
}

abbrev pub update_stats : IdlInstruction
update_stats = record {
  name = "updateStats";
  discriminator = 145 ∷ 138 ∷ 9 ∷ 150 ∷ 178 ∷ 31 ∷ 158 ∷ 244 ∷ [];
  accounts =
      (record { name = "payer"; writable = true; signer = true; address = none; pda = none })
      ∷ (record { name = "asset"; writable = false; signer = false; address = none; pda = none })
      ∷ (record {
        name = "collection";
        writable = false;
        signer = false;
        address = none;
        pda = none;
      })
      ∷ (record {
        name = "config";
        writable = false;
        signer = false;
        address = none;
        pda = some (record { seeds = constant (ascii "atom_config") ∷ []; program = none });
      })
      ∷ (record {
        name = "stats";
        writable = true;
        signer = false;
        address = none;
        pda = some (record {
          seeds = constant (ascii "atom_stats") ∷ account "asset" ∷ [];
          program = none;
        });
      })
      ∷ (record {
        name = "registryAuthority";
        writable = false;
        signer = true;
        address = none;
        pda = none;
      })
      ∷ (record {
        name = "systemProgram";
        writable = false;
        signer = false;
        address = some "11111111111111111111111111111111";
        pda = none;
      })
      ∷ [];
  args = field "clientHash" (array u8 32) ∷ field "score" u8 ∷ [];
  returns = some (defined "updateResult");
}

abbrev pub instructions : List IdlInstruction
instructions =
    get_summary ∷ initialize_config ∷ initialize_stats ∷ revoke_stats ∷ update_config ∷ update_stats
    ∷ []
