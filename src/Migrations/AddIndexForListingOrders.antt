-- ===== src/Migrations/AddIndexForListingOrders.antt =====
-- src/migrations/1771877464333-add-index-for-listing-orders.ts
use nodejs_pro_task.Base.{List, [], ◌∷◌}
use nodejs_pro_task.Migrations.{Statement, create_index, drop_index}
use nodejs_pro_task.Migrations.Catalog.{asc, desc}

-- `CREATE INDEX "IX_orders_user_id_status_created_at"`, which a later migration runs again.
abbrev pub create_listing_index : Statement
create_listing_index =
    create_index "IX_orders_user_id_status_created_at" "orders"
      (("user_id", asc) ∷ ("status", asc) ∷ ("created_at", desc) ∷ [])

unfoldable pub up : List Statement
up = create_listing_index ∷ []

unfoldable pub down : List Statement
down = drop_index "IX_orders_user_id_status_created_at" ∷ []
