-- ===== src/Database/Memory.antt =====
-- A database in memory, which shows that the assumptions on a session can be met; one that is full
-- refuses every commit.
use oopsys_agent.Base.{
  ℕ, ◌≡◌, refl, Bool, Option, none, some, List, [], ◌∷◌, ◌++◌, ◌==◌, if◌then◌else◌, ok, raised,
  other, arith, ap, ◌∙◌,
}
use oopsys_agent.Database.Models.{
  AgentIdentity, Row, identity, error_report, server_metric, container_state, agent_fault,
}
use oopsys_agent.Database.Session.{Database, IsLawful, written, history_rows}

pub record Memory : Type 0 where
  pub identities : ℕ → Option AgentIdentity
  pub rows : List Row
  pub full : Bool

abbrev pub find : ℕ → Option AgentIdentity → Option AgentIdentity
find key none = none
find key (some a) = if a.id == key then some a else none

abbrev pub put_rows : List Row → (ℕ → Option AgentIdentity) → ℕ → Option AgentIdentity
put_rows [] f = f
put_rows (identity a ∷ rows) f = put_rows rows (λ key. if a.id == key then some a else f key)
put_rows (_ ∷ rows) f = put_rows rows f

abbrev pub memory : Database
memory = record {
  Db = Memory;
  select_identity = λ key m. ok (find key (m.identities key));
  commit_rows = λ rows m.
      if m.full
      then raised (other "OperationalError" "database or disk is full")
      else ok (record m {
        identities = put_rows rows m.identities;
        rows = m.rows ++ history_rows rows;
      });
  history = λ m. m.rows;
}

find-if :
    (key : ℕ) (a : AgentIdentity) (o : Option AgentIdentity)
    → find key (if a.id == key then some a else o) ≡ (if a.id == key then some a else find key o)
find-if key a o = ground arith

find-put_rows :
    (key : ℕ) (rows : List Row) (f : ℕ → Option AgentIdentity)
    → find key (put_rows rows f key) ≡ written key rows (find key (f key))
find-put_rows key [] f = refl
find-put_rows key (identity a ∷ rows) f =
    find-put_rows key rows (λ k. if a.id == k then some a else f k)
    ∙ ap (written key rows) (find-if key a (f key))
find-put_rows key (error_report r ∷ rows) f = find-put_rows key rows f
find-put_rows key (server_metric r ∷ rows) f = find-put_rows key rows f
find-put_rows key (container_state r ∷ rows) f = find-put_rows key rows f
find-put_rows key (agent_fault r ∷ rows) f = find-put_rows key rows f

find-id :
    (key : ℕ) (o : Option AgentIdentity) (a : AgentIdentity)
    → ok (find key o) ≡ ok (some a)
    → a.id ≡ key
find-id key o a h = ground arith

-- A commit that returns went to a database that is not full.
commit-ok :
    (rows : List Row) (m m' : Memory)
    → memory.commit_rows rows m ≡ ok m'
    → (m'.identities ≡ put_rows rows m.identities) × (m'.rows ≡ m.rows ++ history_rows rows)
commit-ok rows m m' h = ground arith

pub memory-IsLawful : IsLawful memory
memory-IsLawful = record {
  select-id = λ key m a h. find-id key (m.identities key) a h;
  select-commit = λ key rows m m' i h e.
      rw ((commit-ok rows m m' h).0, find-put_rows key rows m.identities) (ground arith);
  history-commit = λ rows m m' h. (commit-ok rows m m' h).1;
}
