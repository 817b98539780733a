-- ===== src/Database/Engines.antt =====
-- The engine of SQLAlchemy that sessions are made of: database/__init__.py's `create_all`, and how
-- many engines are open beside the rest of a state.
use oopsys_agent.Base.{
  ℕ, suc, ◌-◌, String, Option, some, if◌then◌else◌, is_set, Result, ok, raised, Action, lift, ◌>>◌,
}

pub record Engines (S : Type 0) : Type 0 where
  pub inner : S
  pub engines : ℕ

-- How the steps to an engine with its tables end.
pub record EngineAnswers : Type 0 where
  pub sqlite_path : String
  pub create_engine : Result Unit
  pub make_directory : Result Unit
  pub create_tables : Result Unit

-- The first of two steps that raises, if one does.
abbrev pub both : Result Unit → Result Unit → Result Unit
both (ok _) r = r
both (raised e) r = raised e

-- `create_all`
abbrev pub create_all : Option String → Result Unit → Result Unit → Result Unit
create_all sqlite_path make_directory create_tables =
    if is_set sqlite_path then both make_directory create_tables else create_tables

module _ {S : Type 0} where
  -- `create_async_engine`
  abbrev pub engine_made : Result Unit → Action (Engines S) Unit
  engine_made (ok _) p = (ok tt, record p { engines = suc p.engines })
  engine_made (raised e) p = (raised e, p)

  -- `engine.dispose`
  abbrev pub engine_disposed : Result Unit → Action (Engines S) Unit
  engine_disposed (ok _) p = (ok tt, record p { engines = p.engines - 1 })
  engine_disposed (raised e) p = (raised e, p)

  abbrev pub inside : {A : Type 0} → Action S A → Action (Engines S) A
  inside m p = let (r, s) = m p.inner in (r, record p { inner = s })

  -- An engine and its tables; a failure to create the tables leaves the engine open.
  unfoldable pub open_engine : EngineAnswers → Action (Engines S) Unit
  open_engine a = do
    engine_made a.create_engine
    lift (create_all (some a.sqlite_path) a.make_directory a.create_tables)
