-- ===== src/Base/Strip.antt =====
-- `lstrip` of a text that starts with one character to strip.
use Prim.Native.Char.{Char, code}
use Prim.Native.String.{String}
use mathlib.Core.Path.{◌≡◌, refl, sym, ◌∙◌}
use mathlib.Core.Bool.{false}
use native.Mathlib.Omega.{arith}
use oopsys_agent.Base.Tests.{◌==◌}
use oopsys_agent.Base.Text.{starts_with, lstrip}

starts_with-slash :
    (c : Char) (name : String) → starts_with "/" (String.◌∷◌ c name) ≡ (code "/" == code c)
unfolding starts_with
starts_with-slash c name = ground arith

not_slash :
    (c : Char) (name : String)
    → starts_with "/" (String.◌∷◌ c name) ≡ false
    → (code c == code "/") ≡ false
not_slash c name h = ground (arith, sym (starts_with-slash c name) ∙ h)

lstrip-same : (c : Char) (s : String) → lstrip c (String.◌∷◌ c s) ≡ lstrip c s
unfolding lstrip
lstrip-same c s = ground arith

lstrip-head :
    (c d : Char) (s : String)
    → (code d == code c) ≡ false
    → lstrip c (String.◌∷◌ d s) ≡ String.◌∷◌ d s
unfolding lstrip
lstrip-head c d s h = rw h refl

lstrip-rest : (name : String) → starts_with "/" name ≡ false → lstrip "/" name ≡ name
unfolding lstrip
lstrip-rest String.[] h = refl
lstrip-rest (String.◌∷◌ c name) h = lstrip-head "/" c name (not_slash c name h)

pub lstrip-slash :
    (name : String) → starts_with "/" name ≡ false → lstrip "/" (String.◌∷◌ "/" name) ≡ name
lstrip-slash name h = lstrip-same "/" name ∙ lstrip-rest name h
