-- ===== src/Registry/Error.antt =====
-- programs/agent-registry-8004/src/error.rs, and the other ways in which an instruction fails.
use solana.Prelude.{◌≡◌, refl, Bool, true, false, Option, none, some}

-- `RegistryError`
pub data RegistryError : Type 0 where
  uri_too_long key_too_long value_too_long metadata_limit_reached unauthorized overflow :
      RegistryError
  metadata_not_found invalid_token_account extension_not_found : RegistryError
  invalid_extension_index invalid_collection invalid_asset transfer_to_self : RegistryError
  metadata_immutable parent_already_set parent_self_reference : RegistryError
  invalid_parent_asset not_parent_creator invalid_collection_pointer : RegistryError
  collection_pointer_already_set not_agent_creator invalid_score : RegistryError
  response_uri_too_long already_revoked agent_not_found feedback_not_found : RegistryError
  invalid_feedback_index tag_too_long empty_tags endpoint_too_long invalid_decimals : RegistryError
  atom_stats_not_initialized atom_already_enabled request_uri_too_long : RegistryError
  invalid_response unauthorized_validator unauthorized_requester : RegistryError
  request_not_found invalid_nonce request_hash_mismatch invalid_rent_receiver : RegistryError
  key_hash_mismatch key_hash_collision reserved_metadata_key deadline_expired : RegistryError
  deadline_too_far missing_signature_verification invalid_signature : RegistryError
  root_already_initialized self_feedback_not_allowed self_validation_not_allowed : RegistryError
  invalid_program invalid_atom_stats_account : RegistryError

-- A failure by a `require!`, by an account check that Anchor generates, by a program that is
-- called, or by a panic.
pub data Error : Type 0 where
  registry : RegistryError → Error
  account_not_signer account_not_initialized account_already_in_use constraint_seeds : Error
  cpi_failed panicked : Error

-- `Result<T>`
pub data Result {ℓ} (T : Type ℓ) : Type ℓ where
  err : Error → Result T
  ok : T → Result T

infixl 5 ◌>>=◌ ◌>>◌
-- `?`: an error ends the handler.
unfoldable pub ◌>>=◌ {κ ℓ} : {S : Type κ} {T : Type ℓ} → Result S → (S → Result T) → Result T
err failure >>= rest = err failure
ok value >>= rest = rest value

abbrev pub ◌>>◌ {ℓ} : {T : Type ℓ} → Result (Unit {0}) → Result T → Result T
check >> rest = check >>= λ _. rest

-- `require!(b, e)`
unfoldable pub require : Bool → RegistryError → Result (Unit {0})
require true e = ok tt
require false e = err (registry e)

-- An account check that fails with an error of Anchor's own.
unfoldable pub constraint : Bool → Error → Result (Unit {0})
constraint true e = ok tt
constraint false e = err e

-- `ok_or(e)?`
unfoldable pub ok_or {ℓ} : {A : Type ℓ} → Option A → Error → Result A
ok_or none e = err e
ok_or (some a) e = ok a

-- Inversion of a successful step of a chain: the value and the two equations are passed on.
pub >>=-elim {κ ℓ μ} :
    {S : Type κ} {T : Type ℓ} {Goal : Type μ} (first : Result S) (rest : S → Result T) {final : T}
    → (first >>= rest) ≡ ok final
    → ((value : S) → first ≡ ok value → rest value ≡ ok final → Goal)
    → Goal
unfolding ◌>>=◌
>>=-elim (err failure) rest h goal = absurd (cc)
>>=-elim (ok value) rest h goal = goal value refl h

-- A `require!` that was passed.
pub require-ok : {x : Unit {0}} (b : Bool) (e : RegistryError) → require b e ≡ ok x → b ≡ true
unfolding require
require-ok true e h = refl
require-ok false e h = cc

pub constraint-ok : {x : Unit {0}} (b : Bool) (e : Error) → constraint b e ≡ ok x → b ≡ true
unfolding constraint
constraint-ok true e h = refl
constraint-ok false e h = cc

pub ok_or-ok {ℓ} : {A : Type ℓ} {a : A} (o : Option A) (e : Error) → ok_or o e ≡ ok a → o ≡ some a
unfolding ok_or
ok_or-ok none e h = cc
ok_or-ok (some b) e h = cc

-- The same for a check, which has no value.
pub >>-elim {κ μ} :
    {B : Type κ} {C : Type μ} (m : Result (Unit {0})) (k : Result B) {b : B}
    → (m >> k) ≡ ok b
    → (m ≡ ok tt → k ≡ ok b → C)
    → C
unfolding ◌>>=◌
>>-elim (ok a) k h c = c refl h
>>-elim (err e) k h c = absurd (cc)

pub ok-injective {ℓ} : {A : Type ℓ} {a b : A} → ok a ≡ ok b → b ≡ a
ok-injective h = cc
