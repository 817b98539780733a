-- ===== src/Base/Results.antt =====
-- Results in sequence, for code that keeps no state. A file uses this bind or that of actions.
use mathlib.Core.Path.{◌≡◌, refl}
use mathlib.Core.Bool.{Bool, true}
use mathlib.Core.Option.{Option, none, some}
use oopsys_agent.Base.Python.{Exc, Result, ok, raised}

-- The value, or else the exception.
abbrev pub or_raise : {A : Type 0} → Exc → Option A → Result A
or_raise exc none = raised exc
or_raise exc (some value) = ok value

module _ {A B : Type 0} where
  infixl 5 ◌>>=◌
  abbrev pub ◌>>=◌ : Result A → (A → Result B) → Result B
  raised exc >>= next = raised exc
  ok value >>= next = next value

abbrev pub holds : {A : Type 0} → (A → Bool) → Result A → Bool
holds p (ok a) = p a
holds p (raised e) = true

-- What is returned, if anything is, has the property.
pub record Holds {A : Type 0} (p : A → Bool) (r : Result A) : Type 0 where
  pub law : holds p r ≡ true

holds_bind :
    {A B : Type 0} (p : B → Bool) (r : Result A) (f : A → Result B)
    → ((a : A) → Holds p (f a))
    → holds p (r >>= f) ≡ true
holds_bind p (ok a) f h = (h a).law
holds_bind p (raised e) f h = refl

pub >>=-Holds :
    {A B : Type 0} {p : B → Bool} (r : Result A) (f : A → Result B)
    → ((a : A) → Holds p (f a))
    → Holds p (r >>= f)
>>=-Holds {p = p} r f h = record { law = holds_bind p r f h }

holds_bind_with :
    {A B : Type 0} (q : A → Bool) (p : B → Bool) (r : Result A) (f : A → Result B)
    → Holds q r
    → ((a : A) → q a ≡ true → Holds p (f a))
    → holds p (r >>= f) ≡ true
holds_bind_with q p (ok a) f g h = (h a g.law).law
holds_bind_with q p (raised e) f g h = refl

pub >>=-Holds_with :
    {A B : Type 0} {q : A → Bool} {p : B → Bool} (r : Result A) (f : A → Result B)
    → Holds q r
    → ((a : A) → q a ≡ true → Holds p (f a))
    → Holds p (r >>= f)
>>=-Holds_with {q = q} {p = p} r f g h = record { law = holds_bind_with q p r f g h }

pub ok-Holds : {A : Type 0} {p : A → Bool} (a : A) → p a ≡ true → Holds p (ok a)
ok-Holds a h = record { law = h }
