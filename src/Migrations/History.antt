-- ===== src/Migrations/History.antt =====
-- The migrations in the order of their timestamps, and the databases between them: the tables that
-- the earlier migrations have made, with any contents.
use nodejs_pro_task.Base.{ℕ, String, List, [], ◌∷◌, ◌++◌, map, take, ◌&&◌, str_eq, if◌then◌else◌}
use nodejs_pro_task.Errors.{Result, ok, err}
use nodejs_pro_task.Migrations.{Statement, run, exec}
use nodejs_pro_task.Migrations.Catalog.{Cell, Column, Table, SchemaState}
use nodejs_pro_task.Migrations.Init
use nodejs_pro_task.Migrations.AddIdempotencyKey
use nodejs_pro_task.Migrations.AddIndexForListingOrders
use nodejs_pro_task.Migrations.AddOrderProcessingFields
use nodejs_pro_task.Migrations.AddProcessedMessagesTable
use nodejs_pro_task.Migrations.AddUserPassword

pub record Migration : Type 0 where
  pub up : List Statement
  pub down : List Statement

-- As TypeORM orders them, by the timestamps in their names.
unfoldable pub migrations : List Migration
migrations =
    record { up = Init.up; down = Init.down }
    ∷ record { up = AddIdempotencyKey.up; down = AddIdempotencyKey.down }
    ∷ record { up = AddIndexForListingOrders.up; down = AddIndexForListingOrders.down }
    ∷ record { up = AddOrderProcessingFields.up; down = AddOrderProcessingFields.down }
    ∷ record { up = AddProcessedMessagesTable.up; down = AddProcessedMessagesTable.down }
    ∷ record { up = AddUserPassword.up; down = AddUserPassword.down }
    ∷ []

abbrev pub ups : List Migration → List Statement
ups [] = []
ups (m ∷ ms) = m.up ++ ups ms

abbrev pub empty : SchemaState
empty = record { types = []; tables = []; indexes = [] }

abbrev result_or_empty : Result SchemaState → SchemaState
result_or_empty (ok db) = db
result_or_empty (err e) = empty

-- The empty database after the first migrations.
unfoldable pub schema_after : ℕ → SchemaState
unfolding migrations run exec Init.up AddIdempotencyKey.up AddIndexForListingOrders.up
    AddOrderProcessingFields.up AddProcessedMessagesTable.up AddUserPassword.up
schema_after n = result_or_empty (run (λ k. k) (ups (take n migrations)) empty)

-- How many rows each table has, and the cells of each of its columns.
pub record Contents : Type 0 where
  pub rows : String → ℕ
  pub cells : String → String → List Cell

abbrev load_table : Contents → Table → Table
load_table c t = record t {
  rows = c.rows t.name;
  columns = map (λ (k : Column). record k { cells = c.cells t.name k.name }) t.columns;
}

-- The tables after the first migrations, with these contents.
unfoldable pub filled : ℕ → Contents → SchemaState
unfolding schema_after
filled n c = let db = schema_after n in record db { tables = map (load_table c) db.tables }

-- The contents with other cells in one column of one table.
abbrev pub with_cells : String → String → List Cell → Contents → Contents
with_cells table column new c = record c {
  cells = λ t n. if str_eq t table && str_eq n column then new else c.cells t n;
}

-- The contents with a new table, which is empty.
abbrev pub with_table : String → Contents → Contents
with_table table c = record {
  rows = λ t. if str_eq t table then 0 else c.rows t;
  cells = λ t n. if str_eq t table then [] else c.cells t n;
}
