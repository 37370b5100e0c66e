-- ===== src/Migrations/AddIdempotencyKey.antt =====
-- src/migrations/1770901187228-add-idempotency-key.ts
use nodejs_pro_task.Base.{true, List, [], ◌∷◌}
use nodejs_pro_task.Migrations.{
  Statement, add_column, fill_uuids, set_not_null, add_constraint, drop_constraint, drop_column,
}
use nodejs_pro_task.Migrations.Catalog.{uuid, unique}

unfoldable pub up : List Statement
up =
    add_column "orders" "idempotency_key" uuid true
    ∷ fill_uuids "orders" "idempotency_key"
    ∷ set_not_null "orders" "idempotency_key"
    ∷ add_constraint "orders" "UQ_orders_user_id_idempotency_key"
        (unique ("user_id" ∷ "idempotency_key" ∷ []))
    ∷ []

unfoldable pub down : List Statement
down =
    drop_constraint "orders" "UQ_orders_user_id_idempotency_key"
    ∷ drop_column "orders" "idempotency_key"
    ∷ []
