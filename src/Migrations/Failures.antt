-- ===== src/Migrations/Failures.antt =====
-- Migrations that PostgreSQL refuses for what the tables hold, and what they do otherwise.
use nodejs_pro_task.Base.{ℕ, ◌≡◌, [], ◌∷◌, arith, ltb, if◌then◌else◌}
use nodejs_pro_task.Errors.{driver, ok, err}
use nodejs_pro_task.Migrations.{run, exec}
use nodejs_pro_task.Migrations.Catalog.{all, fits}
use nodejs_pro_task.Migrations.History.{Contents, filled, with_cells}
use nodejs_pro_task.Migrations.AddOrderProcessingFields
use nodejs_pro_task.Migrations.AddUserPassword

-- Reverting the migration that adds the fields of processing gives the database of the migration
-- before it, with all other contents, when every status is NULL or one of created, canceled and
-- paid, and otherwise ends with an invalid text representation.
pub processing_fields_down :
    (fresh : ℕ → ℕ) (c : Contents)
    → run fresh AddOrderProcessingFields.down (filled 4 c) ≡ (
        if all (fits ("created" ∷ "canceled" ∷ "paid" ∷ [])) (c.cells "orders" "status")
        then ok (filled 3 c)
        else err (driver "22P02"))
unfolding run exec filled AddOrderProcessingFields.down
processing_fields_down fresh c = ground arith

pub user_password_up :
    (fresh : ℕ → ℕ) (c : Contents)
    → run fresh AddUserPassword.up (filled 5 c) ≡ (
        if ltb 0 (c.rows "users")
        then err (driver "23502")
        else ok (filled 6 (with_cells "users" "password" [] c)))
unfolding run exec filled AddUserPassword.up
user_password_up fresh c = ground arith
