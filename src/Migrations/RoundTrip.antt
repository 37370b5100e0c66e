-- ===== src/Migrations/RoundTrip.antt =====
-- A migration that is reverted leaves the database as it was.
use nodejs_pro_task.Base.{ℕ, ◌≡◌, refl, true, List, [], ◌∷◌, ◌++◌, arith}
use nodejs_pro_task.Errors.{ok}
use nodejs_pro_task.Migrations.{run, exec}
use nodejs_pro_task.Migrations.Catalog.{Cell, null, text, all, fits, repeat}
use nodejs_pro_task.Migrations.History.{Contents, filled, with_cells}
use nodejs_pro_task.Migrations.AddIndexForListingOrders
use nodejs_pro_task.Migrations.AddOrderProcessingFields
use nodejs_pro_task.Migrations.AddProcessedMessagesTable
use nodejs_pro_task.Migrations.AddUserPassword

pub index_reverted :
    (fresh : ℕ → ℕ) (c : Contents)
    → run fresh (AddIndexForListingOrders.up ++ AddIndexForListingOrders.down) (filled 2 c)
      ≡ ok (filled 2 c)
unfolding run exec filled AddIndexForListingOrders.up AddIndexForListingOrders.down
index_reverted fresh c = refl

pub processed_messages_reverted :
    (fresh : ℕ → ℕ) (c : Contents)
    → run fresh (AddProcessedMessagesTable.up ++ AddProcessedMessagesTable.down) (filled 4 c)
      ≡ ok (filled 4 c)
unfolding run exec filled AddProcessedMessagesTable.up AddProcessedMessagesTable.down
processed_messages_reverted fresh c = refl

pub user_password_reverted :
    (fresh : ℕ → ℕ) (c : Contents)
    → c.rows "users" ≡ 0
    → run fresh (AddUserPassword.up ++ AddUserPassword.down) (filled 5 c) ≡ ok (filled 5 c)
unfolding run exec filled AddUserPassword.up AddUserPassword.down
user_password_reverted fresh c e = ground arith

fits_more :
    (cells : List Cell)
    → all (fits ("created" ∷ "canceled" ∷ "paid" ∷ [])) cells ≡ true
    → all (fits ("created" ∷ "canceled" ∷ "processed" ∷ "paid" ∷ [])) cells ≡ true
fits_more [] h = refl
fits_more (null ∷ cells) h = fits_more cells h
fits_more (text s ∷ cells) h = ground (arith, fits_more cells)
fits_more (x ∷ cells) h = ground arith

pub processing_fields_up :
    (fresh : ℕ → ℕ) (c : Contents)
    → all (fits ("created" ∷ "canceled" ∷ "paid" ∷ [])) (c.cells "orders" "status") ≡ true
    → run fresh AddOrderProcessingFields.up (filled 3 c)
      ≡ ok (filled 4 (with_cells "orders" "processed_at" (repeat (c.rows "orders") null) c))
unfolding run exec filled AddOrderProcessingFields.up
processing_fields_up fresh c e = let more = fits_more (c.cells "orders" "status") e in ground arith

-- The migration that adds the fields of processing, run and reverted on a database of the third
-- migration whose order statuses are created, canceled or paid, leaves the database as it was.
pub processing_fields_reverted :
    (fresh : ℕ → ℕ) (c : Contents)
    → all (fits ("created" ∷ "canceled" ∷ "paid" ∷ [])) (c.cells "orders" "status") ≡ true
    → run fresh (AddOrderProcessingFields.up ++ AddOrderProcessingFields.down) (filled 3 c)
      ≡ ok (filled 3 c)
unfolding run exec filled AddOrderProcessingFields.up AddOrderProcessingFields.down
processing_fields_reverted fresh c e =
    let more = fits_more (c.cells "orders" "status") e in ground arith
