-- ===== src/Migrations/Upgrade.antt =====
-- A database of the first migration, brought to the last one.
use nodejs_pro_task.Base.{
  ℕ, ◌≡◌, refl, ap, ◌∙◌, true, List, [], ◌∷◌, ◌++◌, ltb, drop, if◌then◌else◌,
}
use nodejs_pro_task.Errors.{driver, Result, ok, err}
use nodejs_pro_task.Migrations.{Statement, run, exec}
use nodejs_pro_task.Migrations.Catalog.{null, SchemaState, all, fits, repeat, then_do}
use nodejs_pro_task.Migrations.History.{Contents, filled, with_cells, with_table, migrations, ups}
use nodejs_pro_task.Migrations.AddIdempotencyKey
use nodejs_pro_task.Migrations.AddIndexForListingOrders
use nodejs_pro_task.Migrations.AddOrderProcessingFields
use nodejs_pro_task.Migrations.AddProcessedMessagesTable
use nodejs_pro_task.Migrations.AddUserPassword
use nodejs_pro_task.Migrations.Backfill.{idempotency_key_up, new_cells}
use nodejs_pro_task.Migrations.RoundTrip.{processing_fields_up}
use nodejs_pro_task.Migrations.Failures.{user_password_up}

then_do_assoc :
    {A B C : Type 0} (r : Result A) (f : A → Result B) (g : B → Result C) (h : A → Result C)
    → ((a : A) → h a ≡ then_do (f a) g)
    → then_do r h ≡ then_do (then_do r f) g
then_do_assoc (ok a) f g h e = e a
then_do_assoc (err x) f g h e = refl

run-append :
    (fresh : ℕ → ℕ) (xs ys : List Statement) (db : SchemaState)
    → run fresh (xs ++ ys) db ≡ then_do (run fresh xs db) (run fresh ys)
unfolding run
run-append fresh [] ys db = refl
run-append fresh (x ∷ xs) ys db =
    then_do_assoc (exec fresh x db) (run fresh xs) (run fresh ys) (run fresh (xs ++ ys))
      (λ d. run-append fresh xs ys d)

run_on :
    (fresh : ℕ → ℕ) (xs ys : List Statement) (db db' : SchemaState)
    → run fresh xs db ≡ ok db'
    → run fresh (xs ++ ys) db ≡ run fresh ys db'
run_on fresh xs ys db db' e = run-append fresh xs ys db ∙ ap (λ r. then_do r (run fresh ys)) e

index_up :
    (fresh : ℕ → ℕ) (c : Contents)
    → run fresh AddIndexForListingOrders.up (filled 2 c) ≡ ok (filled 3 c)
unfolding run exec filled AddIndexForListingOrders.up
index_up fresh c = refl

processed_messages_up :
    (fresh : ℕ → ℕ) (c : Contents)
    → run fresh AddProcessedMessagesTable.up (filled 4 c)
      ≡ ok (filled 5 (with_table "processed_messages" c))
unfolding run exec filled AddProcessedMessagesTable.up
processed_messages_up fresh c = refl

-- The contents that the later migrations make of the first one's.
abbrev pub upgraded : (ℕ → ℕ) → Contents → Contents
upgraded fresh c = with_table "processed_messages" (
    with_cells "orders" "processed_at" (repeat (c.rows "orders") null)
      (with_cells "orders" "idempotency_key" (new_cells fresh c) c))

-- A database of the first migration with any contents whose order statuses are created, canceled
-- or paid is brought by the later migrations, run in order with distinct generated identifiers, to
-- the last one with the same contents, a key for each order and no moment of processing; but if
-- there is a user, the run ends with a not-null violation.
pub upgrade :
    (fresh : ℕ → ℕ)
    → ((i j : ℕ) → fresh i ≡ fresh j → i ≡ j)
    → (c : Contents)
    → all (fits ("created" ∷ "canceled" ∷ "paid" ∷ [])) (c.cells "orders" "status") ≡ true
    → run fresh (ups (drop 1 migrations)) (filled 1 c) ≡ (
        if ltb 0 (c.rows "users")
        then err (driver "23502")
        else ok (filled 6 (with_cells "users" "password" [] (upgraded fresh c))))
unfolding migrations AddUserPassword.up
upgrade fresh distinct_ids c valid =
    let (keyed, _, _) = idempotency_key_up fresh distinct_ids c in
    let c₂ = with_cells "orders" "idempotency_key" (new_cells fresh c) c in
    let c₄ = with_cells "orders" "processed_at" (repeat (c.rows "orders") null) c₂ in
    run_on fresh AddIdempotencyKey.up (ups (drop 2 migrations)) _ _ keyed
    ∙ run_on fresh AddIndexForListingOrders.up (ups (drop 3 migrations)) _ _ (index_up fresh c₂)
    ∙ run_on fresh AddOrderProcessingFields.up (ups (drop 4 migrations)) _ _
        (processing_fields_up fresh c₂ valid)
    ∙ run_on fresh AddProcessedMessagesTable.up (ups (drop 5 migrations)) _ _
        (processed_messages_up fresh c₄)
    ∙ user_password_up fresh (with_table "processed_messages" c₄)
