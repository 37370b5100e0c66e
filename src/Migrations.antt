-- ===== src/Migrations.antt =====
-- src/migrations: the statements that the migrations are written in, what PostgreSQL does on each, and
-- the run of a migration. Each migration is in a child named after its class.
pub mod Catalog
pub mod Init
pub mod AddIdempotencyKey
pub mod AddIndexForListingOrders
pub mod AddOrderProcessingFields
pub mod AddProcessedMessagesTable
pub mod AddUserPassword
pub mod History
mod Tests
pub mod Upgrade
pub mod Entities
pub mod Agreement
pub mod RoundTrip
pub mod Backfill
pub mod Failures
use nodejs_pro_task.Base.{
  ℕ, zero, suc, ◌<◌, String, Bool, true, false, ◌&&◌, ◌||◌, not, Option, none, some, List, [], ◌∷◌,
  ◌++◌, map, str_eq, ◌==◌, ltb, if◌then◌else◌,
}
use nodejs_pro_task.Errors.{driver, Result, ok, err}
use Catalog.{
  knows, ColumnDef, empty_column, rename_enum, rename_uses, Cell, null, uuid, ColumnType, enum,
  Default, literal, Column, OnDelete, Constraint, primary_key, unique, foreign_key, Table,
  Direction, Index, EnumType, SchemaState, any, all, keep, repeat, find, change_first, named,
  is_null, cell_eq, fits, refuse_if, then_do, has_type, has_table, has_relation, has_column,
  is_enum, uses_type, refers_to, constrains, refers_to_column, cells_of, both, zip_cons, keys,
  collide, has_collision, on_table, on_column, values_of, accepts, rename_in, fill, dangles,
  violates,
}

pub data Statement : Type 0 where
  create_type : String → List String → Statement
  drop_type : String → Statement
  rename_type : String → String → Statement
  create_table : String → List ColumnDef → List (String × Constraint) → Statement
  drop_table : String → Statement
  create_index : String → String → List (String × Direction) → Statement
  drop_index : String → Statement
  -- `ADD`, of a column without a default: its name, its type and whether it is nullable.
  add_column : String → String → ColumnType → Bool → Statement
  drop_column : String → String → Statement
  set_not_null : String → String → Statement
  drop_default : String → String → Statement
  set_default : String → String → String → Statement
  -- `TYPE t USING c::text::t`, of an enumerated type `t`.
  set_type : String → String → String → Statement
  add_constraint : String → String → Constraint → Statement
  drop_constraint : String → String → Statement
  -- `UPDATE t SET c = gen_random_uuid() WHERE c IS NULL`
  fill_uuids : String → String → Statement

-- The errors are PostgreSQL's codes. `fresh` are the identifiers that `gen_random_uuid` returns.
unfoldable pub exec : (ℕ → ℕ) → Statement → SchemaState → Result SchemaState
exec fresh (create_type n values) db =
    refuse_if (has_type db n) "42710"
      (ok (record db { types = db.types ++ record { name = n; values = values } ∷ [] }))
exec fresh (drop_type n) db = refuse_if (not (has_type db n)) "42704" (
    refuse_if (uses_type n db) "2BP01"
      (ok (record db { types = keep (λ t. not (str_eq t.name n)) db.types })))
exec fresh (rename_type a b) db = refuse_if (not (has_type db a)) "42704" (
    refuse_if (has_type db b) "42710" (
      ok (record db {
        types = map (rename_enum a b) db.types;
        tables = map (rename_uses a b) db.tables;
      })))
exec fresh (create_table n columns constraints) db = refuse_if (has_relation db n) "42P07" (
    refuse_if (not (all (λ c. knows db c.type) columns)) "42704" (
      ok (record db {
        tables =
            db.tables
            ++ record {
              name = n;
              columns = map empty_column columns;
              constraints = constraints;
              rows = 0;
            }
              ∷ [];
      })))
exec fresh (drop_table n) db = refuse_if (not (has_table db n)) "42P01" (
    refuse_if (any (λ t. not (str_eq t.name n) && any (refers_to n) t.constraints) db.tables)
      "2BP01"
      (ok (record db {
        tables = keep (λ t. not (str_eq t.name n)) db.tables;
        indexes = keep (λ i. not (str_eq i.table n)) db.indexes;
      })))
exec fresh (create_index n table columns) db = refuse_if (has_relation db n) "42P07" (
    on_table table (λ t. refuse_if (not (all (λ c. has_column t c.0) columns)) "42703" (ok t))
      (record db {
        indexes = db.indexes ++ record { name = n; table = table; columns = columns } ∷ [];
      }))
exec fresh (drop_index n) db =
    refuse_if (not (any (λ i. str_eq i.name n) db.indexes)) "42704"
      (ok (record db { indexes = keep (λ i. not (str_eq i.name n)) db.indexes }))
exec fresh (add_column table n type nullable) db =
    on_table table
      (λ t. refuse_if (has_column t n) "42701" (
        refuse_if (not nullable && ltb 0 t.rows) "23502" (
          ok (record t {
            columns =
                t.columns
                ++ record {
                  name = n;
                  type = type;
                  nullable = nullable;
                  default = none;
                  cells = repeat t.rows null;
                }
                  ∷ [];
          }))))
      db
exec fresh (drop_column table n) db =
    then_do
      (on_table table
        (λ t. refuse_if (not (has_column t n)) "42703" (
          refuse_if
            (any (λ x. not (str_eq x.name table) && any (refers_to_column table n) x.constraints)
              db.tables)
            "2BP01"
            (ok (record t {
              columns = keep (λ c. not (str_eq c.name n)) t.columns;
              constraints = keep (λ k. not (constrains n k)) t.constraints;
            }))))
        db)
      (λ d. ok (record d {
        indexes =
            keep (λ i. not (str_eq i.table table && any (λ c. str_eq c.0 n) i.columns)) d.indexes;
      }))
exec fresh (set_not_null table n) db =
    on_column table n
      (λ c. refuse_if (any is_null c.cells) "23502" (ok (record c { nullable = false }))) db
exec fresh (drop_default table n) db = on_column table n (λ c. ok (record c { default = none })) db
exec fresh (set_default table n value) db =
    on_column table n
      (λ c.
        refuse_if (not (accepts db c.type value)) "22P02"
          (ok (record c { default = some (literal value) })))
      db
exec fresh (set_type table n type) db = elim (values_of db type) [
  | none ↦ err (driver "42704")
  | some values ↦
      on_column table n
        (λ c.
          refuse_if (elim c.default [ none ↦ false | some _ ↦ true ]) "42804"
            (refuse_if (not (all (fits values) c.cells)) "22P02"
              (ok (record c { type = enum type }))))
        db
]
exec fresh (add_constraint table n k) db =
    on_table table
      (λ t. refuse_if (any (λ x. str_eq x.0 n) t.constraints) "42710" (elim (violates db t k) [
        | some code ↦ err (driver code)
        | none ↦ ok (record t { constraints = t.constraints ++ (n, k) ∷ [] })
      ]))
      db
exec fresh (drop_constraint table n) db =
    on_table table
      (λ t.
        refuse_if (not (any (λ x. str_eq x.0 n) t.constraints)) "42704"
          (ok (record t { constraints = keep (λ x. not (str_eq x.0 n)) t.constraints })))
      db
exec fresh (fill_uuids table n) db =
    on_column table n (λ c. ok (record c { cells = fill fresh 0 c.cells })) db

-- The `queryRunner.query` calls of a method, each awaited; the transaction around them is rolled back
-- when one throws, so nothing is left of a run that does.
unfoldable pub run : (ℕ → ℕ) → List Statement → SchemaState → Result SchemaState
run fresh [] db = ok db
run fresh (s ∷ ss) db = then_do (exec fresh s db) (run fresh ss)
