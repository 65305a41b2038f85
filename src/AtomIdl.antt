-- ===== src/AtomIdl.antt =====
-- types/atom_engine.ts: the interface of the ATOM engine as data. The file is a TypeScript type that
-- repeats the interface description; each of its lists is a list here, in the order of the file.
pub mod Instructions
pub mod Tables
pub mod Config
pub mod Stats
pub mod Results
pub mod Laws
use Prim.Native.String.{String}
use solana.Prelude.{ℕ, ◌+◌, ◌*◌, Bool, Option, none, some, List, [], ◌∷◌, Bytes, Pubkey, key_bytes}

-- `"type"`
pub data IdlType : Type 0 where
  bool u8 u16 u32 u64 pubkey : IdlType
  option : IdlType → IdlType
  array : IdlType → ℕ → IdlType
  defined : String → IdlType

-- A field of a struct, or an argument.
pub data IdlField : Type 0 where
  field : String → IdlType → IdlField

-- A seed of a program address: bytes, or the key of a named account.
pub data Seed : Type 0 where
  constant : Bytes → Seed
  account : String → Seed

-- `"pda"`; without a program it is an address of the described program.
pub record Pda : Type 0 where
  pub seeds : List Seed
  pub program : Option Bytes

-- An account of an instruction.
pub record IdlAccount : Type 0 where
  pub name : String
  pub writable : Bool
  pub signer : Bool
  pub address : Option String
  pub pda : Option Pda

pub record IdlInstruction : Type 0 where
  pub name : String
  pub discriminator : Bytes
  pub accounts : List IdlAccount
  pub args : List IdlField
  pub returns : Option IdlType

-- An entry of `"accounts"` or `"events"`.
pub record Tagged : Type 0 where
  pub name : String
  pub discriminator : Bytes

pub record IdlError : Type 0 where
  pub code : ℕ
  pub name : String
  pub msg : String

pub record TypeDef : Type 0 where
  pub name : String
  pub fields : List IdlField
