-- ===== src/Migrations/Init.antt =====
-- src/migrations/1770837951129-init.ts
use nodejs_pro_task.Base.{String, false, none, some, List, [], ◌∷◌}
use nodejs_pro_task.Migrations.{
  Statement, create_type, drop_type, create_table, drop_table, create_index, drop_index,
  add_constraint, drop_constraint,
}
use nodejs_pro_task.Migrations.Catalog.{
  ColumnDef, Default, uuid_generate_v4, now, literal, ColumnType, uuid, varchar, text, integer,
  numeric, timestamptz, enum, primary_key, unique, foreign_key, cascade, restrict, asc,
}

-- `"name" type NOT NULL`, and with `DEFAULT`.
abbrev pub column : String → ColumnType → ColumnDef
column n t = record { name = n; type = t; nullable = false; default = none }

abbrev pub column_default : String → ColumnType → Default → ColumnDef
column_default n t d = record { name = n; type = t; nullable = false; default = some d }

unfoldable pub up : List Statement
up =
    create_type "users_role_enum" ("user" ∷ "admin" ∷ [])
    ∷ create_table "users"
        (column_default "id" uuid uuid_generate_v4
          ∷ column "email" (varchar (some 100))
          ∷ column_default "role" (enum "users_role_enum") (literal "user")
          ∷ column_default "created_at" timestamptz now
          ∷ column_default "updated_at" timestamptz now
          ∷ [])
        (("UQ_users_email", unique ("email" ∷ [])) ∷ ("PK_users_id", primary_key ("id" ∷ [])) ∷ [])
    ∷ create_table "products"
        (column_default "id" uuid uuid_generate_v4
          ∷ column "title" (varchar (some 200))
          ∷ column "description" text
          ∷ column "stock" integer
          ∷ column "price" numeric
          ∷ column_default "created_at" timestamptz now
          ∷ column_default "updated_at" timestamptz now
          ∷ [])
        (("PK_products_id", primary_key ("id" ∷ [])) ∷ [])
    ∷ create_type "orders_status_enum" ("created" ∷ "canceled" ∷ "paid" ∷ [])
    ∷ create_table "orders"
        (column_default "id" uuid uuid_generate_v4
          ∷ column "user_id" uuid
          ∷ column_default "status" (enum "orders_status_enum") (literal "created")
          ∷ column_default "created_at" timestamptz now
          ∷ column_default "updated_at" timestamptz now
          ∷ [])
        (("PK_orders_id", primary_key ("id" ∷ [])) ∷ [])
    ∷ create_index "IX_orders_user_id" "orders" (("user_id", asc) ∷ [])
    ∷ create_table "order_items"
        (column "order_id" uuid
          ∷ column "product_id" uuid
          ∷ column "qty" integer
          ∷ column "purchase_price" numeric
          ∷ column_default "created_at" timestamptz now
          ∷ column_default "updated_at" timestamptz now
          ∷ [])
        (("PK_order_items_order_id_product_id", primary_key ("order_id" ∷ "product_id" ∷ [])) ∷ [])
    ∷ add_constraint "orders" "FK_orders_user_id_users_id"
        (foreign_key "user_id" "users" "id" cascade)
    ∷ add_constraint "order_items" "FK_order_items_order_id_orders_id"
        (foreign_key "order_id" "orders" "id" cascade)
    ∷ add_constraint "order_items" "FK_order_items_product_id_products_id"
        (foreign_key "product_id" "products" "id" restrict)
    ∷ []

unfoldable pub down : List Statement
down =
    drop_constraint "order_items" "FK_order_items_product_id_products_id"
    ∷ drop_constraint "order_items" "FK_order_items_order_id_orders_id"
    ∷ drop_constraint "orders" "FK_orders_user_id_users_id"
    ∷ drop_table "order_items"
    ∷ drop_index "IX_orders_user_id"
    ∷ drop_table "orders"
    ∷ drop_type "orders_status_enum"
    ∷ drop_table "products"
    ∷ drop_table "users"
    ∷ drop_type "users_role_enum"
    ∷ []
