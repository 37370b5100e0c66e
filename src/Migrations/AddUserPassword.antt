-- ===== src/Migrations/AddUserPassword.antt =====
-- src/migrations/1775511558732-add-user-password.ts
use nodejs_pro_task.Base.{false, some, List, [], ◌∷◌}
use nodejs_pro_task.Migrations.{Statement, add_column, drop_column}
use nodejs_pro_task.Migrations.Catalog.{varchar}

unfoldable pub up : List Statement
up = add_column "users" "password" (varchar (some 100)) false ∷ []

unfoldable pub down : List Statement
down = drop_column "users" "password" ∷ []
