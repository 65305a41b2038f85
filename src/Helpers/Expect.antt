-- ===== src/Helpers/Expect.antt =====
-- tests/utils/helpers.ts: `expectError` and `expectAnchorError`. A promise is what it settles to.
use solana.Prelude.{
  ◌≡◌, refl, ◌↔◌, Bool, true, false, ◌||◌, ◌&&◌, Option, none, some, [], ◌∷◌, ◌++◌, arith, Bytes,
  ascii, bytes_eq, ◌==◌, if◌then◌else◌,
}

-- What is thrown: `error.error?.errorCode?.code`, `error.message` and `error.toString()`.
pub record Thrown : Type 0 where
  pub code : Option Bytes
  pub message : Bytes
  pub text : Bytes

pub data Settled : Type 0 where
  resolved : Settled
  rejected : Thrown → Settled

-- Whether `p` stands at the front.
unfoldable pub is_prefix : Bytes → Bytes → Bool
is_prefix [] s = true
is_prefix (p ∷ ps) [] = false
is_prefix (p ∷ ps) (c ∷ cs) = p == c && is_prefix ps cs

-- `s.includes(p)`
unfoldable pub includes : Bytes → Bytes → Bool
includes p [] = is_prefix p []
includes p (c ∷ cs) = is_prefix p (c ∷ cs) || includes p cs

-- `new Error(m)`: its text has the class in front.
abbrev pub new_error : Bytes → Thrown
new_error m = record { code = none; message = m; text = ascii "Error: " ++ m }

-- What the `try` block of `expectError` throws.
abbrev pub caught : Settled → Bytes → Thrown
caught resolved expected =
    new_error (ascii "Expected error " ++ (expected ++ ascii " but transaction succeeded"))
caught (rejected e) expected = e

unfoldable pub expect_error : Settled → Bytes → Option Thrown
expect_error promise expected =
    let e = caught promise expected in
    if includes expected e.text
    then none
    else some (new_error (ascii "Expected error " ++ (expected ++ (ascii " but got: " ++ e.text))))

-- What the `try` block of `expectAnchorError` throws.
abbrev pub caught_anchor : Settled → Thrown
caught_anchor resolved = new_error (ascii "Expected Anchor error but transaction succeeded")
caught_anchor (rejected e) = e

abbrev is_empty : Bytes → Bool
is_empty [] = true
is_empty (c ∷ cs) = false

-- A code that is there and not empty is compared; the message is searched otherwise.
unfoldable pub check_anchor : Thrown → Option Bytes → Bytes → Option Thrown
check_anchor e (some (c ∷ cs)) expected =
    if bytes_eq (c ∷ cs) expected
    then none
    else some
        (new_error (ascii "Expected error code " ++ (expected ++ (ascii " but got: " ++ (c ∷ cs)))))
check_anchor e _ expected =
    if is_empty e.message
    then some e
    else if includes expected e.message
    then none
    else some (
        new_error
          (ascii "Expected error containing " ++ (expected ++ (ascii " but got: " ++ e.message))))

unfoldable pub expect_anchor_error : Settled → Bytes → Option Thrown
expect_anchor_error promise expected =
    let e = caught_anchor promise in check_anchor e e.code expected

is_prefix-append : (p s : Bytes) → is_prefix p (p ++ s) ≡ true
unfolding is_prefix
is_prefix-append [] s = refl
is_prefix-append (x ∷ p) s = ground (arith, is_prefix-append p s)

includes-here : (p s : Bytes) → is_prefix p s ≡ true → includes p s ≡ true
unfolding includes
includes-here p [] h = h
includes-here p (c ∷ s) h = ground arith

includes-later : (p a s : Bytes) → includes p s ≡ true → includes p (a ++ s) ≡ true
unfolding includes
includes-later p [] s h = h
includes-later p (c ∷ a) s h = ground (arith, includes-later p a s h)

-- A promise that is fulfilled, a transaction that succeeds, makes `expectError` return without an
-- error, whatever code is expected: the error that it throws for this case is caught by its own
-- handler and contains the code. A promise that is rejected makes it return exactly where the text
-- of the error contains the code.
pub expect_error-cases :
    (expected : Bytes) (e : Thrown)
    → (expect_error resolved expected ≡ none)
      × ((expect_error (rejected e) expected ≡ none) ↔ (includes expected e.text ≡ true))
unfolding expect_error
expect_error-cases expected e = (
  ground (
    arith,
    includes-later expected (ascii "Error: Expected error ")
        (expected ++ ascii " but transaction succeeded")
        (includes-here expected (expected ++ ascii " but transaction succeeded")
          (is_prefix-append expected (ascii " but transaction succeeded"))),
  ),
  ((λ h. ground (arith, h)), λ h. ground (arith, h)),
)
