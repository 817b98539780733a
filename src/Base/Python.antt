-- ===== src/Base/Python.antt =====
-- Exceptions as values, and what the source uses of the standard library over them.
use Prim.Native.Nat.{ℕ}
use Prim.Native.String.{String, ◌++◌ as ◌<>◌}
use native.Mathlib.Omega.{arith}
use mathlib.Core.Path.{◌≡◌, refl}
use mathlib.Core.Logic.{◌⊎◌, inl, inr}
use mathlib.Core.Bool.{Bool, true, false, ◌&&◌}
use text.Mathlib.Text.{◌==◌ as str_eq}
use oopsys_agent.Base.Tests.{if◌then◌else◌}
use oopsys_agent.Base.Text.{is_ascii, show_ℕ}

-- The exceptions that the source raises, with the status code where one is carried; `cancelled`
-- is `asyncio.CancelledError`, the one here that is no `Exception`; `other` is any further class
-- of a library, by its name and its text.
pub data Exc : Type 0 where
  token_exists_error token_mismatch_error unauthorized nack_message cancelled type_error : Exc
  server_auth_error server_delivery_error : ℕ → Exc
  other : String → String → Exc

-- What an `except Exception` catches.
abbrev pub is_exception : Exc → Bool
is_exception cancelled = false
is_exception _ = true

pub Exc-cases : (e : Exc) → (e ≡ cancelled) ⊎ (is_exception e ≡ true)
Exc-cases cancelled = inl refl
Exc-cases e = inr refl

abbrev pub server_responded : ℕ → String
server_responded status = "server responded " <> show_ℕ status

-- `str(exc)`
unfoldable pub str : Exc → String
str token_exists_error = "An active token already exists. Use force to recreate it."
str token_mismatch_error = "OOPSYS_AGENT__TOKEN does not match the stored token hash."
str unauthorized = "401: Invalid or missing agent token"
str nack_message = ""
str cancelled = ""
str type_error = "comparing strings with non-ASCII characters is not supported"
str (server_auth_error status) = server_responded status
str (server_delivery_error status) = server_responded status
str (other name message) = message

-- `type(exc).__name__`
unfoldable pub type_name : Exc → String
type_name token_exists_error = "TokenExistsError"
type_name token_mismatch_error = "TokenMismatchError"
type_name unauthorized = "HTTPException"
type_name nack_message = "NackMessage"
type_name cancelled = "CancelledError"
type_name type_error = "TypeError"
type_name (server_auth_error status) = "ServerAuthError"
type_name (server_delivery_error status) = "ServerDeliveryError"
type_name (other name message) = name

-- How a call ended.
pub data Result (A : Type 0) : Type 0 where
  ok : A → Result A
  raised : Exc → Result A

pub Result-cases :
    {A : Type 0} (r : Result A) → ((a : A) × (r ≡ ok a)) ⊎ ((e : Exc) × (r ≡ raised e))
Result-cases (ok a) = inl (a, refl)
Result-cases (raised e) = inr (e, refl)

-- What was written before a raise stays written, so the state comes back beside the exception.
abbrev pub Action : Type 0 → Type 0 → Type 0
Action S A = S → Result A × S

module _ {S A : Type 0} where
  abbrev pub pure : A → Action S A
  pure a s = (ok a, s)

  abbrev pub raise : Exc → Action S A
  raise e s = (raised e, s)

  abbrev pub lift : Result A → Action S A
  lift r s = (r, s)

infixl 5 ◌>>=◌ ◌>>◌
abbrev pub ◌>>=◌ : {S A B : Type 0} → Action S A → (A → Action S B) → Action S B
◌>>=◌ m f s = let (r, s') = m s in elim r [ ok a ↦ f a s' | raised e ↦ (raised e, s') ]

abbrev pub ◌>>◌ : {S A B : Type 0} → Action S A → Action S B → Action S B
m >> k = m >>= λ _. k

abbrev pub raise_if : {S : Type 0} → Bool → Exc → Action S Unit
raise_if c e s = (if c then raised e else ok tt, s)

-- `hmac.compare_digest` of two strings: it refuses text that is not ASCII.
unfoldable pub compare_digest : String → String → Result Bool
compare_digest a b = if is_ascii a && is_ascii b then ok (str_eq a b) else raised type_error

-- A `do` block that returns: its first step returned, and the rest returned from there.
pub >>=-eq-ok :
    {S A B : Type 0} (m : Action S A) (f : A → Action S B) (s : S) {b : B} {t : S}
    → (m >>= f) s ≡ (ok b, t)
    → (a : A) × (s' : S) × (m s ≡ (ok a, s')) × (f a s' ≡ (ok b, t))
>>=-eq-ok {S} {A} {B} m f s {b} {t} h = go (m s) refl
  where
    go :
        (x : Result A × S)
        → m s ≡ x
        → (a : A) × (s' : S) × (m s ≡ (ok a, s')) × (f a s' ≡ (ok b, t))
    go (ok a, s') e = (a, s', e, cc)
    go (raised x, s') e = cc

pub >>=-ok :
    {S A B : Type 0} (m : Action S A) (f : A → Action S B) (s : S) {a : A}
    → (m s).0 ≡ ok a
    → (m >>= f) s ≡ f a (m s).1
>>=-ok m f s h = ground arith

pub >>=-raised :
    {S A B : Type 0} (m : Action S A) (f : A → Action S B) (s : S) {e : Exc}
    → (m s).0 ≡ raised e
    → (m >>= f) s ≡ (raised e, (m s).1)
>>=-raised m f s h = ground arith

pub >>=-step :
    {S A B : Type 0} (m : Action S A) (f : A → Action S B) (s : S) {a : A} {t : S}
    → m s ≡ (ok a, t)
    → (m >>= f) s ≡ f a t
>>=-step m f s h = ground arith

pub >>=-stop :
    {S A B : Type 0} (m : Action S A) (f : A → Action S B) (s : S) {e : Exc} {t : S}
    → m s ≡ (raised e, t)
    → (m >>= f) s ≡ (raised e, t)
>>=-stop m f s h = ground arith
