-- ===== src/Domain/Values.antt =====
-- The values of JSON documents and of `dict[str, Any]`, and the scalars of the models.
use oopsys_agent.Base.{ℕ, String, Bool}
use oopsys_agent.Base.Int.{ℤ}

-- A datetime in UTC: microseconds since the epoch.
abbrev pub Time : Type 0
Time = ℕ

-- A Python float, by the bits of its binary64 representation. Nothing computes with one here.
abbrev pub Float : Type 0
Float = ℕ

mutual
  pub data Json : Type 0 where
    null : Json
    bool : Bool → Json
    num : ℤ → Json
    float : Float → Json
    str : String → Json
    arr : Items → Json
    obj : Fields → Json

  pub data Items : Type 0 where
    nil : Items
    cons : Json → Items → Items

  pub data Fields : Type 0 where
    end : Fields
    field : String → Json → Fields → Fields
