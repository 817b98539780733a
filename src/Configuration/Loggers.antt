-- ===== src/Configuration/Loggers.antt =====
-- configuration/loggers.py and version.py. The levels are kitstructlog's, and a parameter.
use mathlib.Core.Path.{ap₂}
use oopsys_agent.Base.{
  String, ◌≡◌, refl, inl, inr, Bool, true, false, Bool-cases, List, [], ◌∷◌, map, other, Result, ok,
  raised, if◌then◌else◌, str_eq,
}

pub record Levels : Type 1 where
  pub Level : Type 0
  pub none : Level
  pub debug : Level
  pub info : Level
  pub warning : Level
  -- `is`
  pub same : Level → Level → Bool

module _ (K : Levels) where
  -- `LoggerReg`
  pub record LoggerReg : Type 0 where
    pub name : String
    pub level : K.Level

  -- The attributes of `Loggers`.
  abbrev pub registered : List LoggerReg
  registered =
      record { name = "MAIN"; level = K.info }
      ∷ record { name = "PROVIDERS"; level = K.warning }
      ∷ record { name = "API"; level = K.info }
      ∷ record { name = "MONITOR"; level = K.info }
      ∷ record { name = "PUBLISHER"; level = K.info }
      ∷ record { name = "DEVELOPMENT"; level = K.debug }
      ∷ []

  -- The loop's body.
  abbrev pub to_debug : LoggerReg → LoggerReg
  to_debug r = if K.same r.level K.none then r else record r { level = K.debug }

  -- `Loggers.__init__`, up to the library's
  unfoldable pub init_loggers : Bool → List LoggerReg → List LoggerReg
  init_loggers developer_mode regs = if developer_mode then map to_debug regs else regs

  to_debug-to_debug :
      K.same K.debug K.none ≡ false → (r : LoggerReg) → to_debug (to_debug r) ≡ to_debug r
  to_debug-to_debug h r = elim (Bool-cases (K.same r.level K.none)) [
    | inl silent ↦ rw (silent, silent) refl
    | inr loud ↦ rw (loud, h) refl
  ]

  -- Made twice, the loggers are as when made once, although the levels are kept in the class.
  init_loggers-init_loggers :
      K.same K.debug K.none ≡ false
      → (developer_mode : Bool) (regs : List LoggerReg)
      → init_loggers developer_mode (init_loggers developer_mode regs)
        ≡ init_loggers developer_mode regs
  unfolding init_loggers
  init_loggers-init_loggers h false regs = refl
  init_loggers-init_loggers h true [] = refl
  init_loggers-init_loggers h true (r ∷ regs) =
      ap₂ (λ x xs. x ∷ xs) (to_debug-to_debug h r) (init_loggers-init_loggers h true regs)

-- `get_version`, by how the lookup of the package ends
unfoldable pub get_version : Result String → Result String
get_version (raised (other name message)) =
    if str_eq name "PackageNotFoundError" then ok "0.0.0" else raised (other name message)
get_version found = found
