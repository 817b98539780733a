-- ===== src/Base/Decimal.antt =====
-- Decimal digits read back, and the rest of a text after a prefix.
use Prim.Native.Nat.{ℕ, zero, suc, ◌+◌, ◌-◌, ◌*◌, ◌/◌, ◌%◌, ◌<◌}
use Prim.Native.Char.{code}
use Prim.Native.String.{String, ◌++◌ as ◌<>◌}
use mathlib.Core.Path.{◌≡◌, refl, ap, ◌∙◌}
use mathlib.Core.Logic.{inl, inr}
use mathlib.Core.Bool.{Bool, true, false, ◌&&◌}
use native.Mathlib.Omega.{arith}
use text.Mathlib.TextLemmas.{nil-append, cons-append}
use oopsys_agent.Base.Tests.{ltb, ◌==◌, Bool-cases}
use oopsys_agent.Base.Text.{pick, show_fuel, show_ℕ}

-- The number that digits denote after those of `n`.
abbrev pub read_after : ℕ → String → ℕ
read_after n String.[] = n
read_after n (String.◌∷◌ c s) = read_after (10 * n + (code c - 48)) s

abbrev pub read_ℕ : String → ℕ
read_ℕ s = read_after 0 s

read_after-append : (n : ℕ) (s t : String) → read_after n (s <> t) ≡ read_after (read_after n s) t
read_after-append n String.[] t = ap (read_after n) (nil-append t)
read_after-append n (String.◌∷◌ c s) t =
    ap (read_after n) (cons-append c s t) ∙ read_after-append (10 * n + (code c - 48)) s t

-- The first `m` characters of a text have the codes from `k` on.
abbrev is_run : ℕ → ℕ → String → Bool
is_run k zero s = true
is_run k (suc m) String.[] = false
is_run k (suc m) (String.◌∷◌ c s) = code c == k && is_run (suc k) m s

pick-is_run : (k m : ℕ) (s : String) (n : ℕ) → is_run k m s ≡ true → n < m → code (pick s n) ≡ k + n
pick-is_run k zero s n r h = omega arith
pick-is_run k (suc m) String.[] n r h = ground arith
pick-is_run k (suc m) (String.◌∷◌ c s) zero r h = ground arith
pick-is_run k (suc m) (String.◌∷◌ c s) (suc n) r h =
    pick-is_run (suc k) m s n (ground arith) (omega arith) ∙ omega arith

digit_value : (n : ℕ) → n < 10 → code (pick "0123456789" n) - 48 ≡ n
digit_value n h = ground (arith, pick-is_run 48 10 "0123456789" n refl h)

read_ℕ-show_fuel : (fuel n : ℕ) → n < fuel → read_ℕ (show_fuel fuel n) ≡ n
unfolding show_fuel
read_ℕ-show_fuel zero n h = omega arith
read_ℕ-show_fuel (suc fuel) n h = elim (Bool-cases (ltb n 10)) [
  | inl small ↦ rw (small, digit_value (n % 10) (omega arith)) (ground arith)
  | inr large ↦
      rw
        (
          large,
          read_after-append 0 (show_fuel fuel (n / 10))
              (String.◌∷◌ (pick "0123456789" (n % 10)) ""),
          read_ℕ-show_fuel fuel (n / 10) (ground arith),
          digit_value (n % 10) (omega arith),
        )
        (omega arith)
]

-- `show_ℕ` has fuel enough: its digits denote the number.
pub read_ℕ-show_ℕ : (n : ℕ) → read_ℕ (show_ℕ n) ≡ n
unfolding show_ℕ
read_ℕ-show_ℕ n = read_ℕ-show_fuel (suc n) n (omega arith)

-- The rest of a text after as many characters as a prefix has.
abbrev pub after : String → String → String
after String.[] t = t
after (String.◌∷◌ c s) String.[] = ""
after (String.◌∷◌ c s) (String.◌∷◌ d t) = after s t

pub after-append : (s t : String) → after s (s <> t) ≡ t
after-append String.[] t = nil-append t
after-append (String.◌∷◌ c s) t = ap (after (String.◌∷◌ c s)) (cons-append c s t) ∙ after-append s t
