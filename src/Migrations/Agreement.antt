-- ===== src/Migrations/Agreement.antt =====
-- The migrations (src/migrations) make what the decorators of the entities describe.
use nodejs_pro_task.Base.{
  String, ◌≡◌, refl, subst, inl, inr, ◌⊎◌, Bool, false, Option, none, some, List, [], ◌∷◌, map,
  str_eq, arith, eq_iff,
}
use nodejs_pro_task.Migrations.Catalog.{
  ColumnDef, ColumnType, Default, Constraint, Column, Table, SchemaState, find, any, EnumType,
}
use nodejs_pro_task.Migrations.History.{schema_after}
use nodejs_pro_task.Migrations.Entities.{EntityTable, entities, enums, indexes}

str_eq-cases : (k n : String) → (k ≡ n) ⊎ (str_eq k n ≡ false)
str_eq-cases k n = ground (arith, eq_iff k n)

-- Two functions of a name agree on these names.
abbrev AgreeOn {ℓ} : {X : Type ℓ} → (String → X) → (String → X) → List String → Type ℓ
AgreeOn f g [] = Unit
AgreeOn f g (k ∷ ks) = (f k ≡ g k) × AgreeOn f g ks

agree_by_names {ℓ} :
    {X : Type ℓ} (f g : String → X) (ks : List String)
    → AgreeOn f g ks
    → (n : String) → (any (λ k. str_eq k n) ks ≡ false → f n ≡ g n)
    → f n ≡ g n
agree_by_names f g [] u n other = other refl
agree_by_names f g (k ∷ ks) (e, es) n other = elim (str_eq-cases k n) [
  | inl same ↦ subst (λ m. f m ≡ g m) same e
  | inr differs ↦ agree_by_names f g ks es n (λ absent. other (ground arith))
]

abbrev names : {A : Type 0} → (A → String) → List A → List String
names f xs = map f xs

-- What is said of a column: its type, whether it is nullable, its default.
abbrev pub Described : Type 0
Described = Option (ColumnType × (Bool × Option Default))

abbrev describe : Option ColumnDef → Described
describe none = none
describe (some c) = some (c.type, (c.nullable, c.default))

abbrev described : Option Column → Described
described none = none
described (some c) = some (c.type, (c.nullable, c.default))

abbrev second : {A : Type 0} → Option (String × A) → Option A
second none = none
second (some p) = some p.1

abbrev table_of : SchemaState → String → Option Table
table_of db t = find (λ x. str_eq x.name t) db.tables

abbrev entity_of : String → Option EntityTable
entity_of t = find (λ e. str_eq e.name t) entities

-- The column of a table, in the database and in the entities.
abbrev pub column_in : SchemaState → String → String → Described
column_in db t n = elim (table_of db t) [
  | none ↦ none
  | some x ↦ described (find (λ c. str_eq c.name n) x.columns)
]

abbrev pub entity_column : String → String → Described
entity_column t n = elim (entity_of t) [
  | none ↦ none
  | some e ↦ describe (find (λ c. str_eq c.name n) e.columns)
]

-- The constraint of a table.
abbrev pub constraint_in : SchemaState → String → String → Option Constraint
constraint_in db t n = elim (table_of db t) [
  | none ↦ none
  | some x ↦ second (find (λ k. str_eq k.0 n) x.constraints)
]

abbrev pub entity_constraint : String → String → Option Constraint
entity_constraint t n = elim (entity_of t) [
  | none ↦ none
  | some e ↦ second (find (λ k. str_eq k.0 n) e.constraints)
]

abbrev tables : List String
tables = "users" ∷ "products" ∷ "orders" ∷ "order_items" ∷ "processed_messages" ∷ []

module _ (n : String) where
  users_columns : column_in (schema_after 6) "users" n ≡ entity_column "users" n
  unfolding schema_after entities
  users_columns =
      agree_by_names (column_in (schema_after 6) "users") (entity_column "users")
        ("id" ∷ "email" ∷ "password" ∷ "role" ∷ "created_at" ∷ "updated_at" ∷ [])
        (refl, (refl, (refl, (refl, (refl, (refl, tt)))))) n (λ absent. ground arith)

  users_constraints : constraint_in (schema_after 6) "users" n ≡ entity_constraint "users" n
  unfolding schema_after entities
  users_constraints =
      agree_by_names (constraint_in (schema_after 6) "users") (entity_constraint "users")
        ("UQ_users_email" ∷ "PK_users_id" ∷ []) (refl, (refl, tt)) n (λ absent. ground arith)

  products_columns : column_in (schema_after 6) "products" n ≡ entity_column "products" n
  unfolding schema_after entities
  products_columns =
      agree_by_names (column_in (schema_after 6) "products") (entity_column "products")
        ("id" ∷ "title" ∷ "description" ∷ "stock" ∷ "price" ∷ "created_at" ∷ "updated_at" ∷ [])
        (refl, (refl, (refl, (refl, (refl, (refl, (refl, tt))))))) n (λ absent. ground arith)

  products_constraints :
      constraint_in (schema_after 6) "products" n ≡ entity_constraint "products" n
  unfolding schema_after entities
  products_constraints =
      agree_by_names (constraint_in (schema_after 6) "products") (entity_constraint "products")
        ("PK_products_id" ∷ []) (refl, tt) n (λ absent. ground arith)

  orders_columns : column_in (schema_after 6) "orders" n ≡ entity_column "orders" n
  unfolding schema_after entities
  orders_columns =
      agree_by_names (column_in (schema_after 6) "orders") (entity_column "orders")
        ("id" ∷ "user_id" ∷ "status" ∷ "idempotency_key" ∷ "created_at" ∷ "updated_at"
          ∷ "processed_at" ∷ [])
        (refl, (refl, (refl, (refl, (refl, (refl, (refl, tt))))))) n (λ absent. ground arith)

  orders_constraints : constraint_in (schema_after 6) "orders" n ≡ entity_constraint "orders" n
  unfolding schema_after entities
  orders_constraints =
      agree_by_names (constraint_in (schema_after 6) "orders") (entity_constraint "orders")
        ("UQ_orders_user_id_idempotency_key" ∷ "PK_orders_id" ∷ "FK_orders_user_id_users_id" ∷ [])
        (refl, (refl, (refl, tt))) n (λ absent. ground arith)

  order_items_columns : column_in (schema_after 6) "order_items" n ≡ entity_column "order_items" n
  unfolding schema_after entities
  order_items_columns =
      agree_by_names (column_in (schema_after 6) "order_items") (entity_column "order_items")
        ("order_id" ∷ "product_id" ∷ "qty" ∷ "purchase_price" ∷ "created_at" ∷ "updated_at" ∷ [])
        (refl, (refl, (refl, (refl, (refl, (refl, tt)))))) n (λ absent. ground arith)

  order_items_constraints :
      constraint_in (schema_after 6) "order_items" n ≡ entity_constraint "order_items" n
  unfolding schema_after entities
  order_items_constraints =
      agree_by_names (constraint_in (schema_after 6) "order_items")
        (entity_constraint "order_items")
        ("PK_order_items_order_id_product_id" ∷ "FK_order_items_order_id_orders_id"
          ∷ "FK_order_items_product_id_products_id" ∷ [])
        (refl, (refl, (refl, tt))) n (λ absent. ground arith)

  processed_messages_columns :
      column_in (schema_after 6) "processed_messages" n ≡ entity_column "processed_messages" n
  unfolding schema_after entities
  processed_messages_columns =
      agree_by_names (column_in (schema_after 6) "processed_messages")
        (entity_column "processed_messages") ("id" ∷ "message_id" ∷ "handler" ∷ "processed_at" ∷ [])
        (refl, (refl, (refl, (refl, tt)))) n (λ absent. ground arith)

  processed_messages_constraints :
      constraint_in (schema_after 6) "processed_messages" n
      ≡ entity_constraint "processed_messages" n
  unfolding schema_after entities
  processed_messages_constraints =
      agree_by_names (constraint_in (schema_after 6) "processed_messages")
        (entity_constraint "processed_messages")
        ("UQ_processed_messages_message_id_handler" ∷ "PK_processed_messages_id" ∷ [])
        (refl, (refl, tt)) n (λ absent. ground arith)

  columns_agree : (t : String) → column_in (schema_after 6) t n ≡ entity_column t n
  unfolding schema_after entities
  columns_agree t =
      agree_by_names (λ t. column_in (schema_after 6) t n) (λ t. entity_column t n) tables
        (
          users_columns,
          (
            products_columns,
            (orders_columns, (order_items_columns, (processed_messages_columns, tt))),
          ),
        )
        t (λ absent. ground arith)

  constraints_agree : (t : String) → constraint_in (schema_after 6) t n ≡ entity_constraint t n
  unfolding schema_after entities
  constraints_agree t =
      agree_by_names (λ t. constraint_in (schema_after 6) t n) (λ t. entity_constraint t n) tables
        (
          users_constraints,
          (
            products_constraints,
            (orders_constraints, (order_items_constraints, (processed_messages_constraints, tt))),
          ),
        )
        t (λ absent. ground arith)

-- The values of an enumerated type.
abbrev pub values_in : List EnumType → String → Option (List String)
values_in ts n = elim (find (λ t. str_eq t.name n) ts) [ none ↦ none | some t ↦ some t.values ]

-- The columns of an index.
abbrev pub index_in : SchemaState → String → Option (List String)
index_in db n = elim (find (λ i. str_eq i.name n) db.indexes) [
  | none ↦ none
  | some i ↦ some (map (λ c. c.0) i.columns)
]

-- After all migrations a table has a column, of what type, nullability and default, exactly as the
-- decorators of its entity say, and so for the constraints of each table, the values of the
-- enumerated types and the columns of the indexes, whatever name is asked for.
pub schema_agrees :
    (t n : String)
    → (column_in (schema_after 6) t n ≡ entity_column t n)
      × (constraint_in (schema_after 6) t n ≡ entity_constraint t n)
      × (values_in (schema_after 6).types n ≡ values_in enums n)
      × (index_in (schema_after 6) n ≡ second (find (λ i. str_eq i.0 n) indexes))
unfolding schema_after enums indexes
schema_agrees t n = (columns_agree n t, constraints_agree n t, ground arith, ground arith)
