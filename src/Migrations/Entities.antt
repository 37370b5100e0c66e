-- ===== src/Migrations/Entities.antt =====
-- The tables that the decorators of the entities describe (src/users/user.entity.ts,
-- src/products/product.entity.ts, src/orders/order.entity.ts, src/orders/order-item.entity.ts,
-- src/common/processed-message.entity.ts), and that the migrations make the same ones.
use nodejs_pro_task.Base.{String, true, false, none, some, List, [], ◌∷◌}
use nodejs_pro_task.Migrations.Catalog.{
  ColumnDef, ColumnType, uuid, varchar, text, integer, numeric, timestamptz, enum, Default,
  uuid_generate_v4, now, literal, Constraint, primary_key, unique, foreign_key, cascade, restrict,
  EnumType,
}

pub record EntityTable : Type 0 where
  pub name : String
  pub columns : List ColumnDef
  -- `@Unique`, the names of primary keys and foreign keys.
  pub constraints : List (String × Constraint)

-- `@Column` without a default, `@PrimaryColumn`
abbrev column : String → ColumnType → ColumnDef
column n t = record { name = n; type = t; nullable = false; default = none }

-- `@Column({ nullable: true })`
abbrev nullable_column : String → ColumnType → ColumnDef
nullable_column n t = record { name = n; type = t; nullable = true; default = none }

-- `@Column({ default })`
abbrev column_default : String → ColumnType → Default → ColumnDef
column_default n t d = record { name = n; type = t; nullable = false; default = some d }

-- `@PrimaryGeneratedColumn("uuid")`
abbrev generated_uuid : String → ColumnDef
generated_uuid n = column_default n uuid uuid_generate_v4

-- `@CreateDateColumn` and `@UpdateDateColumn`
abbrev date_column : String → ColumnDef
date_column n = column_default n timestamptz now

unfoldable pub users : EntityTable
users = record {
  name = "users";
  columns =
      generated_uuid "id"
      ∷ column "email" (varchar (some 100))
      ∷ column "password" (varchar (some 100))
      ∷ column_default "role" (enum "users_role_enum") (literal "user")
      ∷ date_column "created_at"
      ∷ date_column "updated_at"
      ∷ [];
  constraints =
      ("UQ_users_email", unique ("email" ∷ [])) ∷ ("PK_users_id", primary_key ("id" ∷ [])) ∷ [];
}

unfoldable pub products : EntityTable
products = record {
  name = "products";
  columns =
      generated_uuid "id"
      ∷ column "title" (varchar (some 200))
      ∷ column "description" text
      ∷ column "stock" integer
      ∷ column "price" numeric
      ∷ date_column "created_at"
      ∷ date_column "updated_at"
      ∷ [];
  constraints = ("PK_products_id", primary_key ("id" ∷ [])) ∷ [];
}

unfoldable pub orders : EntityTable
orders = record {
  name = "orders";
  columns =
      generated_uuid "id"
      ∷ column "user_id" uuid
      ∷ column_default "status" (enum "orders_status_enum") (literal "created")
      ∷ column "idempotency_key" uuid
      ∷ date_column "created_at"
      ∷ date_column "updated_at"
      ∷ nullable_column "processed_at" timestamptz
      ∷ [];
  constraints =
      ("UQ_orders_user_id_idempotency_key", unique ("user_id" ∷ "idempotency_key" ∷ []))
      ∷ ("PK_orders_id", primary_key ("id" ∷ []))
      ∷ ("FK_orders_user_id_users_id", foreign_key "user_id" "users" "id" cascade)
      ∷ [];
}

unfoldable pub order_items : EntityTable
order_items = record {
  name = "order_items";
  columns =
      column "order_id" uuid
      ∷ column "product_id" uuid
      ∷ column "qty" integer
      ∷ column "purchase_price" numeric
      ∷ date_column "created_at"
      ∷ date_column "updated_at"
      ∷ [];
  constraints =
      ("PK_order_items_order_id_product_id", primary_key ("order_id" ∷ "product_id" ∷ []))
      ∷ ("FK_order_items_order_id_orders_id", foreign_key "order_id" "orders" "id" cascade)
      ∷ ("FK_order_items_product_id_products_id", foreign_key "product_id" "products" "id" restrict)
      ∷ [];
}

unfoldable pub processed_messages : EntityTable
processed_messages = record {
  name = "processed_messages";
  columns =
      generated_uuid "id"
      ∷ column "message_id" uuid
      ∷ column "handler" (varchar none)
      ∷ column_default "processed_at" timestamptz now
      ∷ [];
  constraints =
      ("UQ_processed_messages_message_id_handler", unique ("message_id" ∷ "handler" ∷ []))
      ∷ ("PK_processed_messages_id", primary_key ("id" ∷ []))
      ∷ [];
}

unfoldable pub entities : List EntityTable
unfolding users products orders order_items processed_messages
entities = users ∷ products ∷ orders ∷ order_items ∷ processed_messages ∷ []

-- The values of `UserRole` and of `OrderStatus`.
unfoldable pub enums : List EnumType
enums =
    record { name = "users_role_enum"; values = "user" ∷ "admin" ∷ [] }
    ∷ record {
      name = "orders_status_enum";
      values = "created" ∷ "canceled" ∷ "processed" ∷ "paid" ∷ [];
    }
    ∷ []

-- `@Index` of `Order`: the columns of each.
unfoldable pub indexes : List (String × List String)
indexes =
    ("IX_orders_user_id", "user_id" ∷ [])
    ∷ ("IX_orders_user_id_status_created_at", "user_id" ∷ "status" ∷ "created_at" ∷ [])
    ∷ []
