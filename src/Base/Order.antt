-- ===== src/Base/Order.antt =====
-- The order of Python strings, by code points, and `sorted` of a list of them.
use Prim.Native.Char.{code}
use Prim.Native.String.{String}
use native.Mathlib.Omega.{arith}
use mathlib.Core.Path.{◌≡◌, refl, sym, ap, ◌∙◌}
use mathlib.Core.Path.{ap₂}
use text.Mathlib.TextEquality.{Char-path, IsScalar-prop}
use mathlib.Core.List.{Permᴰ, Perm}
use mathlib.Core.Logic.{◌⊎◌, inl, inr, ∥∥₁_elim}
use mathlib.Core.Bool.{Bool, true, false}
use mathlib.Core.List.{List, [], ◌∷◌}
use oopsys_agent.Base.Tests.{ltb, ◌==◌, if◌then◌else◌, Bool-cases}

unfoldable pub str_leb : String → String → Bool
str_leb String.[] t = true
str_leb (String.◌∷◌ c s) String.[] = false
str_leb (String.◌∷◌ c s) (String.◌∷◌ d t) =
    let rest = str_leb s t in
    if ltb (code c) (code d) then true else if code c == code d then rest else false

pub str_leb-total : (s t : String) → (str_leb s t ≡ true) ⊎ (str_leb t s ≡ true)
unfolding str_leb
str_leb-total String.[] t = inl refl
str_leb-total (String.◌∷◌ c s) String.[] = inr refl
str_leb-total (String.◌∷◌ c s) (String.◌∷◌ d t) = ground (arith, str_leb-total s t)

pub str_leb_trans : (s t u : String) → str_leb s t ≡ true → str_leb t u ≡ true → str_leb s u ≡ true
unfolding str_leb
str_leb_trans String.[] t u p q = refl
str_leb_trans (String.◌∷◌ c s) String.[] u p q = ground arith
str_leb_trans (String.◌∷◌ c s) (String.◌∷◌ d t) String.[] p q = ground arith
str_leb_trans (String.◌∷◌ c s) (String.◌∷◌ d t) (String.◌∷◌ e u) p q =
    ground (arith, str_leb_trans s t u)

pub str_leb-antisym : (s t : String) → str_leb s t ≡ true → str_leb t s ≡ true → s ≡ t
unfolding str_leb
str_leb-antisym String.[] String.[] p q = refl
str_leb-antisym String.[] (String.◌∷◌ d t) p q = ground arith
str_leb-antisym (String.◌∷◌ c s) String.[] p q = ground arith
str_leb-antisym (String.◌∷◌ c s) (String.◌∷◌ d t) p q =
    ap₂ String.◌∷◌ (Char-path c d (ground arith))
      (str_leb-antisym s t (ground arith) (ground arith))

unfoldable pub insert : String → List String → List String
insert k [] = k ∷ []
insert k (x ∷ xs) = let rest = insert k xs in if str_leb k x then k ∷ x ∷ xs else x ∷ rest

-- `sorted`
unfoldable pub sorted : List String → List String
unfolding insert
sorted [] = []
sorted (k ∷ keys) = insert k (sorted keys)

insert-below :
    (k x : String) (xs : List String) → str_leb k x ≡ true → insert k (x ∷ xs) ≡ k ∷ x ∷ xs
unfolding insert
insert-below k x xs h = rw h

insert-above :
    (k x : String) (xs : List String) → str_leb k x ≡ false → insert k (x ∷ xs) ≡ x ∷ insert k xs
unfolding insert
insert-above k x xs h = rw h

-- Two keys in front of a list that both are below.
insert-both :
    (a b x : String) (xs : List String)
    → str_leb a x ≡ true
    → str_leb b x ≡ true
    → insert a (b ∷ x ∷ xs) ≡ insert b (a ∷ x ∷ xs)
insert-both a b x xs p q = elim (Bool-cases (str_leb a b)) [
  | inl ab ↦ elim (Bool-cases (str_leb b a)) [
    | inl ba ↦ rw (str_leb-antisym a b ab ba) refl
    | inr nba ↦
        rw (insert-below a b (x ∷ xs) ab, insert-above b a (x ∷ xs) nba, insert-below b x xs q) refl
  ]
  | inr nab ↦ elim (Bool-cases (str_leb b a)) [
    | inl ba ↦
        rw (insert-above a b (x ∷ xs) nab, insert-below b a (x ∷ xs) ba, insert-below a x xs p) refl
    | inr nba ↦ elim (str_leb-total a b) [ inl h ↦ cc | inr h ↦ cc ]
  ]
]

-- One below and one above the first element.
insert-apart :
    (a b x : String) (xs : List String)
    → str_leb a x ≡ true
    → str_leb b x ≡ false
    → insert a (x ∷ insert b xs) ≡ insert b (a ∷ x ∷ xs)
insert-apart a b x xs p nq = elim (Bool-cases (str_leb b a)) [
  | inl ba ↦ cc (str_leb_trans b a x ba p)
  | inr nba ↦
      rw (insert-below a x (insert b xs) p, insert-above b a (x ∷ xs) nba, insert-above b x xs nq)
        refl
]

insert-nil : (k : String) → insert k [] ≡ k ∷ []
unfolding insert
insert-nil k = refl

insert-ends : (a b : String) → insert a (b ∷ []) ≡ insert b (a ∷ [])
unfolding insert
insert-ends a b = elim (Bool-cases (str_leb a b)) [
  | inl ab ↦ elim (Bool-cases (str_leb b a)) [
    | inl ba ↦ rw (str_leb-antisym a b ab ba) refl
    | inr nba ↦ rw (insert-below a b [] ab, insert-above b a [] nba) refl
  ]
  | inr nab ↦ elim (Bool-cases (str_leb b a)) [
    | inl ba ↦ rw (insert-above a b [] nab, insert-below b a [] ba) refl
    | inr nba ↦ elim (str_leb-total a b) [ inl h ↦ cc | inr h ↦ cc ]
  ]
]

insert_comm : (a b : String) (xs : List String) → insert a (insert b xs) ≡ insert b (insert a xs)
insert_comm a b [] = rw (insert-nil a, insert-nil b) (insert-ends a b)
insert_comm a b (x ∷ xs) = elim (Bool-cases (str_leb a x)) [
  | inl p ↦ elim (Bool-cases (str_leb b x)) [
    | inl q ↦ rw (insert-below a x xs p, insert-below b x xs q) (insert-both a b x xs p q)
    | inr nq ↦ rw (insert-below a x xs p, insert-above b x xs nq) (insert-apart a b x xs p nq)
  ]
  | inr np ↦ elim (Bool-cases (str_leb b x)) [
    | inl q ↦ rw (insert-above a x xs np, insert-below b x xs q) (sym (insert-apart b a x xs q np))
    | inr nq ↦
        rw
          (
            insert-above a x xs np,
            insert-above b x xs nq,
            insert-above a x (insert b xs) np,
            insert-above b x (insert a xs) nq,
          )
          (ap (λ rest. x ∷ rest) (insert_comm a b xs))
  ]
]

sorted-Permᴰ : {keys keys' : List String} → Permᴰ keys keys' → sorted keys ≡ sorted keys'
unfolding sorted
sorted-Permᴰ Permᴰ.nil = refl
sorted-Permᴰ (Permᴰ.cons e d) = ap₂ insert e (sorted-Permᴰ d)
sorted-Permᴰ (Permᴰ.swap {a} {b} {l = l} e f) = rw (← e, ← f) (insert_comm a b (sorted l))
sorted-Permᴰ (Permᴰ.trans d d') = sorted-Permᴰ d ∙ sorted-Permᴰ d'

-- `sorted` does not see the order that the keys are in.
pub sorted-Perm : (keys keys' : List String) → Perm keys keys' → sorted keys ≡ sorted keys'
sorted-Perm keys keys' p = ∥∥₁_elim p (hlevel (IsScalar-prop)) (λ d. sorted-Permᴰ d)
