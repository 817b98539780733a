-- ===== src/Base/Lists.antt =====
-- The list functions whose library versions count in another ℕ.
use Prim.Native.Nat.{ℕ, suc, ◌+◌}
use mathlib.Core.Path.{◌≡◌}
use mathlib.Core.Logic.{◌⊎◌, inl, inr}
use mathlib.Core.List.{List, [], ◌∷◌, ◌++◌}
use native.Mathlib.Omega.{arith}

module _ {ℓ} {A : Type ℓ} where
  abbrev pub length : List A → ℕ
  length [] = 0
  length (x ∷ xs) = suc (length xs)

  pub length-append : (xs ys : List A) → length (xs ++ ys) ≡ length xs + length ys
  length-append [] ys = omega arith
  length-append (x ∷ xs) ys = omega (arith, length-append xs ys)

module _ {A : Type 0} where
  -- A member, by its position.
  abbrev pub In : A → List A → Type 0
  In x [] = ⊥
  In x (y ∷ ys) = (x ≡ y) ⊎ In x ys

  pub In-append_left : (x : A) (xs ys : List A) → In x xs → In x (xs ++ ys)
  In-append_left x (z ∷ xs) ys (inl e) = inl e
  In-append_left x (z ∷ xs) ys (inr m) = inr (In-append_left x xs ys m)
  In-append_left x [] ys m = elim m [ ]

  pub In-append_right : (x : A) (xs ys : List A) → In x ys → In x (xs ++ ys)
  In-append_right x [] ys m = m
  In-append_right x (z ∷ xs) ys m = inr (In-append_right x xs ys m)

  pub In-append : (x : A) (xs ys : List A) → In x (xs ++ ys) → In x xs ⊎ In x ys
  In-append x [] ys m = inr m
  In-append x (z ∷ xs) ys (inl e) = inl (inl e)
  In-append x (z ∷ xs) ys (inr m) = elim (In-append x xs ys m) [
    | inl l ↦ inl (inr l)
    | inr r ↦ inr r
  ]

  -- What is in a list is the element at a place, or in the rest.
  pub In-middle : (x y : A) (xs ys : List A) → In x (xs ++ y ∷ ys) → (x ≡ y) ⊎ In x (xs ++ ys)
  In-middle x y xs ys m = elim (In-append x xs (y ∷ ys) m) [
    | inl l ↦ inr (In-append_left x xs ys l)
    | inr (inl e) ↦ inl e
    | inr (inr r) ↦ inr (In-append_right x xs ys r)
  ]
