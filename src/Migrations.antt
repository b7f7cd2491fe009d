-- ===== src/Migrations.antt =====
-- src/migrations.rs: the migrations, run in one transaction behind an advisory lock, and the test
-- that the schema is there. The driver is a library: `Databases` names what is called of it. What
-- a statement's SQL does is the database's.
use eal_api.Prelude.{Bool, false, Option, none, some, List, [], ◌∷◌, Result, ok, ◌>>=◌}
use eal_api.Text.{Text}

-- The statements that `migrate_all` executes: the lock, and the files of migrations/ in order.
pub data MigrationStatement : Type 0 where
  advisory_lock : MigrationStatement
  domain_scoped_indexing semantic_embedding_inputs : MigrationStatement
  durable_alert_rules_and_authz revision_bound_match_identity : MigrationStatement
  reverse_alert_hot_path active_alert_limit : MigrationStatement

pub record Databases : Type 1 where
  pub Database : Type 0
  pub Transaction : Type 0
  pub connect : Text → Result Text Database
  pub begin : Database → Result Text Transaction
  pub execute_unprepared : Transaction → MigrationStatement → Result Text Transaction
  pub commit : Transaction → Result Text Database
  -- The query of `schema_ready`: its row, if it gives one, with the column as it is read.
  pub query_ready : Database → Result Text (Option (Result Text Bool))

unfoldable pub statements : List MigrationStatement
statements =
    advisory_lock ∷ domain_scoped_indexing ∷ semantic_embedding_inputs
    ∷ durable_alert_rules_and_authz ∷ revision_bound_match_identity ∷ reverse_alert_hot_path
    ∷ active_alert_limit ∷ []

module _ (databases : Databases) where
  open databases use {Database, Transaction, begin, execute_unprepared, commit, query_ready}

  -- The first error ends the run, and the transaction is dropped without a commit.
  unfoldable pub execute_all : Transaction → List MigrationStatement → Result Text Transaction
  execute_all transaction [] = ok transaction
  execute_all transaction (statement ∷ rest) =
      execute_unprepared transaction statement >>= λ next. execute_all next rest

  unfoldable pub migrate_all : Database → Result Text Database
  migrate_all db = do transaction ← begin db; done ← execute_all transaction statements; commit done

  unfoldable pub schema_ready : Database → Result Text Bool
  schema_ready db = query_ready db >>= λ row. elim row [ none ↦ ok false | some ready ↦ ready ]
