-- ===== src/Migrations/Catalog/Types.antt =====
-- Enumerated types, tables and indexes of the database (src/migrations).
use nodejs_pro_task.Base.{ℕ, String, Bool, Option, List}

-- A value, or NULL. Numbers and moments are only compared.
pub data Cell : Type 0 where
  null : Cell
  uuid number : ℕ → Cell
  text : String → Cell

pub data ColumnType : Type 0 where
  uuid text integer numeric timestamptz : ColumnType
  varchar : Option ℕ → ColumnType
  enum : String → ColumnType

-- `now()` is CURRENT_TIMESTAMP.
pub data Default : Type 0 where
  uuid_generate_v4 now : Default
  literal : String → Default

pub record Column : Type 0 where
  pub name : String
  pub type : ColumnType
  pub nullable : Bool
  pub default : Option Default
  -- One for each row, in one order for all columns of a table.
  pub cells : List Cell

-- A column of `CREATE TABLE`.
pub record ColumnDef : Type 0 where
  pub name : String
  pub type : ColumnType
  pub nullable : Bool
  pub default : Option Default

pub data OnDelete : Type 0 where
  no_action cascade restrict : OnDelete

pub data Constraint : Type 0 where
  primary_key unique : List String → Constraint
  -- A column, the table and its column that it refers to.
  foreign_key : String → String → String → OnDelete → Constraint

pub record Table : Type 0 where
  pub name : String
  pub columns : List Column
  pub constraints : List (String × Constraint)
  pub rows : ℕ

pub data Direction : Type 0 where
  asc desc : Direction

pub record Index : Type 0 where
  pub name : String
  pub table : String
  pub columns : List (String × Direction)

-- An enumerated type with its values.
pub record EnumType : Type 0 where
  pub name : String
  pub values : List String

pub record SchemaState : Type 0 where
  pub types : List EnumType
  pub tables : List Table
  pub indexes : List Index
