-- ===== src/Dynamic/Numbers.antt =====
-- Arithmetic on values of type `Any`. That on floats is a parameter.
use oopsys_agent.Base.{
  String, ◌<>◌, Bool, true, false, Option, none, some, List, [], ◌∷◌, if◌then◌else◌, other, Result,
  ok, raised,
}
use oopsys_agent.Base.Int.{ℤ, pos, ◌+ℤ◌, ◌-ℤ◌, ltb_ℤ, leb_ℤ}
use oopsys_agent.Base.Results.{◌>>=◌}
use oopsys_agent.Domain.Values.{Float, Json, bool, num, float}
use oopsys_agent.Dynamic.Defs.{type_of}

pub data Number : Type 0 where
  int : ℤ → Number
  flt : Float → Number

-- The language's operations where a float is involved, as binary64 has them; an integer that is out
-- of the floats' range makes them raise. `show` is `str(j)` of what is not a text.
pub record Floats : Type 0 where
  pub sub : Number → Number → Result Float
  pub sum : List Number → Result Float
  pub true_div : Number → Number → Result Float
  pub mul : Float → Number → Result Float
  pub round_2 : Float → Result Float
  pub lt_zero : Float → Bool
  pub le_zero : Float → Bool
  pub show : Json → String

abbrev pub zero_float : Float
zero_float = 0

-- The bits of 100.0.
abbrev pub hundred : Float
hundred = 4636737291354636288

abbrev pub bool_int : Bool → ℤ
bool_int true = pos 1
bool_int false = pos 0

-- The number that a value is; `bool` is a subclass of `int`. The text of the error leaves out the other
-- operand.
abbrev pub number : String → Json → Result Number
number operator (num z) = ok (int z)
number operator (bool b) = ok (int (bool_int b))
number operator (float f) = ok (flt f)
number operator j = raised (
    other "TypeError"
      ("unsupported operand type(s) for " <> (operator <> (": '" <> (type_of j <> "'")))))

module _ (F : Floats) where
  abbrev pub number_sub : Number → Number → Result Number
  number_sub (int a) (int b) = ok (int (a -ℤ b))
  number_sub (flt a) b = F.sub (flt a) b >>= λ c. ok (flt c)
  number_sub a (flt b) = F.sub a (flt b) >>= λ c. ok (flt c)

  -- `a - b`
  abbrev pub subtract : Json → Json → Result Number
  subtract a b = number "-" a >>= λ x. number "-" b >>= λ y. number_sub x y

  abbrev pub is_negative : Number → Bool
  is_negative (int z) = ltb_ℤ z (pos 0)
  is_negative (flt f) = F.lt_zero f

  abbrev pub is_at_most_zero : Number → Bool
  is_at_most_zero (int z) = leb_ℤ z (pos 0)
  is_at_most_zero (flt f) = F.le_zero f

  -- `max(a, 0)`
  abbrev pub max_zero : Number → Number
  max_zero a = if is_negative a then int (pos 0) else a

-- The sum of integers, if they all are.
abbrev pub int_sum : List Number → Option ℤ
int_sum [] = some (pos 0)
int_sum (int z ∷ ns) = elim (int_sum ns) [ none ↦ none | some s ↦ some (z +ℤ s) ]
int_sum (flt f ∷ ns) = none

-- `sum(ns)`
abbrev pub total : Floats → List Number → Result Number
total F ns = elim (int_sum ns) [ some z ↦ ok (int z) | none ↦ F.sum ns >>= λ f. ok (flt f) ]
