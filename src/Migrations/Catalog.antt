-- ===== src/Migrations/Catalog.antt =====
-- What the migrations (src/migrations) change: enumerated types, tables and indexes, with the
-- contents of a table column by column, as the statements read and write them.
mod Types
mod Lists
pub use Types.*
pub use Lists.*
use nodejs_pro_task.Base.{
  ℕ, zero, suc, String, Bool, true, false, ◌&&◌, ◌||◌, not, Option, none, some, List, [], ◌∷◌, map,
  str_eq, ◌==◌, if◌then◌else◌,
}
use nodejs_pro_task.Errors.{driver, Result, ok, err}

-- `a` is among the names.
abbrev pub named : List String → String → Bool
named names a = any (str_eq a) names

abbrev pub is_null : Cell → Bool
is_null null = true
is_null _ = false

abbrev pub cell_eq : Cell → Cell → Bool
cell_eq null null = true
cell_eq (uuid a) (uuid b) = a == b
cell_eq (number a) (number b) = a == b
cell_eq (text a) (text b) = str_eq a b
cell_eq _ _ = false

-- A value can be read as a value of the type: NULL always can.
abbrev pub fits : List String → Cell → Bool
fits values null = true
fits values (text s) = named values s
fits values _ = false

abbrev pub refuse_if : {A : Type 0} → Bool → String → Result A → Result A
refuse_if true code r = err (driver code)
refuse_if false code r = r

abbrev pub then_do : {A B : Type 0} → Result A → (A → Result B) → Result B
then_do (ok a) f = f a
then_do (err e) f = err e

abbrev pub has_type : SchemaState → String → Bool
has_type db n = any (λ t. str_eq t.name n) db.types

abbrev pub knows : SchemaState → ColumnType → Bool
knows db (enum n) = has_type db n
knows db t = true

abbrev pub has_table : SchemaState → String → Bool
has_table db n = any (λ t. str_eq t.name n) db.tables

-- Tables and indexes share their names' space.
abbrev pub has_relation : SchemaState → String → Bool
has_relation db n = has_table db n || any (λ i. str_eq i.name n) db.indexes

abbrev pub has_column : Table → String → Bool
has_column t n = any (λ c. str_eq c.name n) t.columns

abbrev pub is_enum : String → ColumnType → Bool
is_enum n (enum m) = str_eq m n
is_enum n _ = false

abbrev pub uses_type : String → SchemaState → Bool
uses_type n db = any (λ t. any (λ c. is_enum n c.type) t.columns) db.tables

-- A foreign key of the table refers to the other one.
abbrev pub refers_to : String → String × Constraint → Bool
refers_to n (_, foreign_key _ m _ _) = str_eq m n
refers_to n _ = false

abbrev pub constrains : String → String × Constraint → Bool
constrains n (_, primary_key cs) = named cs n
constrains n (_, unique cs) = named cs n
constrains n (_, foreign_key c _ _ _) = str_eq c n

abbrev pub refers_to_column : String → String → String × Constraint → Bool
refers_to_column n c (_, foreign_key _ m d _) = str_eq m n && str_eq d c
refers_to_column n c _ = false

abbrev pub cells_of : Table → String → List Cell
cells_of t n = elim (find (λ c. str_eq c.name n) t.columns) [ none ↦ [] | some c ↦ c.cells ]

abbrev pub both : Cell → List Cell → List Cell
both c cs = c ∷ cs

abbrev pub zip_cons : List Cell → List (List Cell) → List (List Cell)
zip_cons [] _ = []
zip_cons (c ∷ cs) [] = []
zip_cons (c ∷ cs) (k ∷ ks) = both c k ∷ zip_cons cs ks

abbrev pub keys : Table → List String → List (List Cell)
keys t [] = repeat t.rows []
keys t (c ∷ cs) = zip_cons (cells_of t c) (keys t cs)

-- Two keys collide when they agree in every part and no part is NULL.
abbrev pub collide : List Cell → List Cell → Bool
collide [] [] = true
collide (a ∷ ks) (b ∷ ls) = cell_eq a b && (not (is_null a) && collide ks ls)
collide _ _ = false

abbrev pub has_collision : List (List Cell) → Bool
has_collision [] = false
has_collision (k ∷ ks) = any (collide k) ks || has_collision ks

abbrev pub on_table : String → (Table → Result Table) → SchemaState → Result SchemaState
on_table n f db =
    then_do (change_first "42P01" (λ t. str_eq t.name n) f db.tables)
      (λ ts. ok (record db { tables = ts }))

abbrev pub on_column : String → String → (Column → Result Column) → SchemaState → Result SchemaState
on_column t n f = on_table t (λ x.
    then_do (change_first "42703" (λ c. str_eq c.name n) f x.columns)
      (λ cs. ok (record x { columns = cs })))

abbrev pub values_of : SchemaState → String → Option (List String)
values_of db n = elim (find (λ t. str_eq t.name n) db.types) [
  | none ↦ none
  | some t ↦ some t.values
]

-- A text as the default of a column: an enumerated type must have it.
abbrev pub accepts : SchemaState → ColumnType → String → Bool
accepts db (enum n) value = elim (values_of db n) [
  | none ↦ false
  | some values ↦ named values value
]
accepts db _ value = true

abbrev pub rename_in : String → String → ColumnType → ColumnType
rename_in a b (enum m) = if str_eq m a then enum b else enum m
rename_in a b t = t

-- The rows that hold NULL get the next of the generated identifiers.
abbrev pub fill : (ℕ → ℕ) → ℕ → List Cell → List Cell
fill fresh n [] = []
fill fresh n (null ∷ cs) = uuid (fresh n) ∷ fill fresh (suc n) cs
fill fresh n (c ∷ cs) = c ∷ fill fresh n cs

-- A row of a table that refers to no row of the other.
abbrev pub dangles : List Cell → Cell → Bool
dangles targets c = not (is_null c) && not (any (cell_eq c) targets)

abbrev pub violates : SchemaState → Table → Constraint → Option String
violates db t (primary_key cs) =
    if any (λ c. any is_null (cells_of t c)) cs
    then some "23502"
    else if has_collision (keys t cs)
    then some "23505"
    else none
violates db t (unique cs) =
    if not (all (has_column t) cs)
    then some "42703"
    else if has_collision (keys t cs)
    then some "23505"
    else none
violates db t (foreign_key c other target _) = elim (find (λ x. str_eq x.name other) db.tables) [
  | none ↦ some "42P01"
  | some x ↦ if any (dangles (cells_of x target)) (cells_of t c) then some "23503" else none
]

abbrev pub empty_column : ColumnDef → Column
empty_column c = record {
  name = c.name;
  type = c.type;
  nullable = c.nullable;
  default = c.default;
  cells = [];
}

abbrev pub rename_enum : String → String → EnumType → EnumType
rename_enum a b t = if str_eq t.name a then record t { name = b } else t

-- The columns of the type are columns of it under its new name.
abbrev pub rename_uses : String → String → Table → Table
rename_uses a b t = record t {
  columns = map (λ (c : Column). record c { type = rename_in a b c.type }) t.columns;
}
