-- ===== src/Migrations/AddOrderProcessingFields.antt =====
-- src/migrations/1773518476643-add-order-processing-fields.ts
use nodejs_pro_task.Base.{true, List, [], ◌∷◌}
use nodejs_pro_task.Migrations.{
  Statement, add_column, drop_index, rename_type, create_type, drop_default, set_type, set_default,
  drop_type, drop_column,
}
use nodejs_pro_task.Migrations.Catalog.{timestamptz}
use nodejs_pro_task.Migrations.AddIndexForListingOrders.{create_listing_index}

unfoldable pub up : List Statement
up =
    add_column "orders" "processed_at" timestamptz true
    ∷ drop_index "IX_orders_user_id_status_created_at"
    ∷ rename_type "orders_status_enum" "orders_status_enum_old"
    ∷ create_type "orders_status_enum" ("created" ∷ "canceled" ∷ "processed" ∷ "paid" ∷ [])
    ∷ drop_default "orders" "status"
    ∷ set_type "orders" "status" "orders_status_enum"
    ∷ set_default "orders" "status" "created"
    ∷ drop_type "orders_status_enum_old"
    ∷ create_listing_index
    ∷ []

unfoldable pub down : List Statement
down =
    drop_index "IX_orders_user_id_status_created_at"
    ∷ create_type "orders_status_enum_old" ("created" ∷ "canceled" ∷ "paid" ∷ [])
    ∷ drop_default "orders" "status"
    ∷ set_type "orders" "status" "orders_status_enum_old"
    ∷ set_default "orders" "status" "created"
    ∷ drop_type "orders_status_enum"
    ∷ rename_type "orders_status_enum_old" "orders_status_enum"
    ∷ create_listing_index
    ∷ drop_column "orders" "processed_at"
    ∷ []
