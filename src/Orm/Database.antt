-- ===== src/Orm/Database.antt =====
-- The transactions of pqxx, outside the repository, as the mapper uses them: a statement is answered
-- or throws, and a transaction that is not committed is rolled back.
use webcrown.Base.{ℕ, List, [], ◌∷◌, ◌++◌, Bytes, Bool, true, Option, none, some, if◌then◌else◌}
use webcrown.Orm.Schema.{Table, Member}
use webcrown.Orm.Query.{create_table, delete_text}
use webcrown.Base.{ℤ}

-- What `row[name]` gives: a field, which is `none` if it is null, or the exception for a name that no
-- column has, `none`.
abbrev pub Row : Type 0
Row = Bytes → Option (Option Bytes)

pub record Response : Type 0 where
  pub rows : List Row
  pub affected_rows : ℕ

-- What the database says of a statement: `none` is an exception, which `exec0` also throws for a
-- statement that gives rows. `commits` is whether a commit succeeds.
pub record Database : Type 0 where
  pub exec : Bytes → Option Response
  pub exec0 : Bytes → Option Response
  pub commits : Bool

pub data Command : Type 0 where
  exec exec0 : Bytes → Command
  commit : Command

-- A call's statements, and its result; `none` is an exception.
pub record Ran {ℓ} (A : Type ℓ) : Type ℓ where
  pub commands : List Command
  pub result : Option A

-- A statement without rows, and its commit.
unfoldable pub exec_commit {ℓ} : {A : Type ℓ} → Database → Bytes → (Response → A) → Ran A
exec_commit db sql done = elim (db.exec0 sql) [
  | none ↦ record { commands = Command.exec0 sql ∷ []; result = none }
  | some answer ↦ record {
    commands = Command.exec0 sql ∷ commit ∷ [];
    result = if db.commits then some (done answer) else none;
  }
]

-- A statement with rows, which is not committed.
unfoldable pub exec_rows {ℓ} : {A : Type ℓ} → Database → Bytes → (List Row → Option A) → Ran A
exec_rows db sql read = elim (db.exec sql) [
  | none ↦ record { commands = Command.exec sql ∷ []; result = none }
  | some answer ↦ record { commands = Command.exec sql ∷ []; result = read answer.rows }
]

-- `none` is a table that does not compile.
unfoldable pub run_create_table : (ℤ → Bytes) → Database → Table → List Member → Option (Ran Bool)
unfolding exec_commit
run_create_table decimal db t ms = elim (create_table decimal t ms) [
  | none ↦ none
  | some sql ↦ some (exec_commit db sql (λ answer. true))
]

unfoldable pub run_delete : Database → Table → Bytes → Ran Bool
unfolding exec_commit
run_delete db t cond = exec_commit db (delete_text t ++ cond) (λ answer. true)
