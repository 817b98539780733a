-- ===== src/Database/Session.antt =====
-- An `AsyncSession` over an engine, as a parameter: SQLAlchemy and SQLite are not under the source.
-- A session is one transaction at a time: what is added or changed is written by `commit`.
use oopsys_agent.Base.{
  ℕ, ◌≡◌, Option, some, List, [], ◌∷◌, ◌++◌, ◌==◌, if◌then◌else◌, Result, ok, raised, Action,
}
use oopsys_agent.Database.Models.{AgentIdentity, Row, identity}

pub record Database : Type 1 where
  pub Db : Type 0
  -- `execute(select(AgentIdentity).where(AgentIdentity.id == key))`, `scalar_one_or_none()`
  pub select_identity : ℕ → Db → Result (Option AgentIdentity)
  -- `commit()` of the rows that were added or changed since the last one
  pub commit_rows : List Row → Db → Result Db
  -- the rows of the history tables, oldest first; no code reads them
  pub history : Db → List Row

-- The identity with the key `key` after some rows are written.
abbrev pub written : ℕ → List Row → Option AgentIdentity → Option AgentIdentity
written key [] i = i
written key (identity a ∷ rows) i = written key rows (if a.id == key then some a else i)
written key (_ ∷ rows) i = written key rows i

-- The rows for the history tables.
abbrev pub history_rows : List Row → List Row
history_rows [] = []
history_rows (identity a ∷ rows) = history_rows rows
history_rows (row ∷ rows) = row ∷ history_rows rows

-- What the services rely on: a commit that returns has written every row, and a table that could
-- be read before it can be read after it. One that raises leaves the database as it was, since
-- it returns no other.
pub record IsLawful (D : Database) : Type 0 where
  pub select-id :
      (key : ℕ) (db : D.Db) (a : AgentIdentity)
      → D.select_identity key db ≡ ok (some a)
      → a.id ≡ key
  pub select-commit :
      (key : ℕ) (rows : List Row) (db db' : D.Db) (i : Option AgentIdentity)
      → D.commit_rows rows db ≡ ok db'
      → D.select_identity key db ≡ ok i
      → D.select_identity key db' ≡ ok (written key rows i)
  pub history-commit :
      (rows : List Row) (db db' : D.Db)
      → D.commit_rows rows db ≡ ok db'
      → D.history db' ≡ D.history db ++ history_rows rows

-- `await session.commit()`
unfoldable pub commit : (D : Database) → List Row → Action D.Db Unit
commit D rows db = elim (D.commit_rows rows db) [
  | ok db' ↦ (ok tt, db')
  | raised e ↦ (raised e, db)
]
