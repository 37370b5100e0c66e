-- ===== src/Migrations/Tests.antt =====
-- Runs of the migrations, and the theorems on a small database: a user with two orders.
use nodejs_pro_task.Base.{
  ℕ, String, ◌≡◌, refl, false, ◌&&◌, none, some, [], ◌∷◌, ◌++◌, drop, str_eq, if◌then◌else◌,
}
use nodejs_pro_task.Errors.{driver, ok, err}
use nodejs_pro_task.Migrations.{exec, run}
use nodejs_pro_task.Migrations.Catalog.{uuid, text, any, is_null, has_collision, integer}
use nodejs_pro_task.Migrations.History.{
  Contents, filled, migrations, ups, empty, with_cells, schema_after,
}
use nodejs_pro_task.Migrations.Init
use nodejs_pro_task.Migrations.AddOrderProcessingFields
use nodejs_pro_task.Migrations.AddIdempotencyKey
use nodejs_pro_task.Migrations.Backfill.{
  idempotency_key_up, idempotency_key_reverted, column_cells, column_keys,
}
use nodejs_pro_task.Migrations.Upgrade.{upgrade}
use nodejs_pro_task.Migrations.Failures.{processing_fields_down}
use nodejs_pro_task.Migrations.Agreement.{
  schema_agrees, column_in, constraint_in, index_in, values_in,
}
use nodejs_pro_task.Migrations.Entities.{enums}

init_undone : run (λ n. n) (Init.up ++ Init.down) empty ≡ ok empty
unfolding run exec Init.up Init.down
init_undone = refl

abbrev fresh : ℕ → ℕ
fresh n = n

-- One column of orders' statuses, and the user of both orders.
abbrev with_statuses : String → String → Contents
with_statuses a b = record {
  rows = λ t. if str_eq t "users" then 1 else if str_eq t "orders" then 2 else 0;
  cells = λ t n.
      if str_eq t "orders" && str_eq n "status"
      then text a ∷ text b ∷ []
      else if str_eq t "orders" && str_eq n "user_id"
      then uuid 7 ∷ uuid 7 ∷ []
      else [];
}

idempotency_key_up_example :
    let c = with_statuses "created" "paid" in
    let c' = with_cells "orders" "idempotency_key" (uuid 0 ∷ uuid 1 ∷ []) c in
    (run fresh AddIdempotencyKey.up (filled 1 c) ≡ ok (filled 2 c'))
    × (any is_null (column_cells (filled 2 c') "orders" "idempotency_key") ≡ false)
    × (has_collision (column_keys (filled 2 c') "orders" ("user_id" ∷ "idempotency_key" ∷ []))
        ≡ false)
idempotency_key_up_example = idempotency_key_up fresh (λ i j e. e) (with_statuses "created" "paid")

idempotency_key_reverted_example :
    run fresh
      (AddIdempotencyKey.up ++ AddIdempotencyKey.down)
      (filled 1 (with_statuses "created" "paid"))
    ≡ ok (filled 1 (with_statuses "created" "paid"))
idempotency_key_reverted_example =
    idempotency_key_reverted fresh (λ i j e. e) (with_statuses "created" "paid")

processing_fields_down_example :
    run fresh AddOrderProcessingFields.down (filled 4 (with_statuses "created" "processed"))
    ≡ err (driver "22P02")
processing_fields_down_example = processing_fields_down fresh (with_statuses "created" "processed")

upgrade_example :
    run fresh (ups (drop 1 migrations)) (filled 1 (with_statuses "created" "paid"))
    ≡ err (driver "23502")
upgrade_example = upgrade fresh (λ i j e. e) (with_statuses "created" "paid") refl

schema_agrees_example :
    (column_in (schema_after 6) "order_items" "qty" ≡ some (integer, (false, none)))
    × (constraint_in (schema_after 6) "order_items" "qty" ≡ none)
    × (values_in (schema_after 6).types "qty" ≡ none)
    × (index_in (schema_after 6) "qty" ≡ none)
unfolding enums nodejs_pro_task.Migrations.Entities.entities
    nodejs_pro_task.Migrations.Entities.indexes
schema_agrees_example = schema_agrees "order_items" "qty"
