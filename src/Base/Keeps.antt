-- ===== src/Base/Keeps.antt =====
-- Actions that keep a property of the state, however they end.
use mathlib.Core.Path.{◌≡◌, refl}
use mathlib.Core.Logic.{inl, inr}
use oopsys_agent.Base.Python.{Result-cases, Action, pure, ◌>>=◌, ◌>>◌, >>=-ok, >>=-raised}

module _ {S : Type 0} (P : S → Type 0) where
  abbrev pub Keeps : {A : Type 0} → Action S A → Type 0
  Keeps m = (s : S) → P s → P (m s).1

  pub >>=-Keeps :
      {A B : Type 0} (m : Action S A) (f : A → Action S B)
      → Keeps m
      → ((a : A) → Keeps (f a))
      → Keeps (m >>= f)
  >>=-Keeps m f km kf s p = elim (Result-cases (m s).0) [
    | inl (a, e) ↦ rw (>>=-ok m f s e) (kf a (m s).1 (km s p))
    | inr (x, e) ↦ rw (>>=-raised m f s e) (km s p)
  ]

  pub >>-Keeps :
      {A B : Type 0} (m : Action S A) (k : Action S B) → Keeps m → Keeps k → Keeps (m >> k)
  >>-Keeps m k km kk = >>=-Keeps m (λ _. k) km (λ _. kk)

-- What is made of the value that an action returns is no matter of the state.
pub state->>=-pure :
    {S A B : Type 0} (m : Action S A) (f : A → B) (s : S) → ((m >>= λ a. pure (f a)) s).1 ≡ (m s).1
state->>=-pure m f s = elim (Result-cases (m s).0) [
  | inl (a, e) ↦ rw (>>=-ok m (λ b. pure (f b)) s e) refl
  | inr (x, e) ↦ rw (>>=-raised m (λ b. pure (f b)) s e) refl
]
