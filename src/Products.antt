-- ===== src/Products.antt =====
-- src/products/products.service.ts with findOneById of src/products/products.repository.ts, and the
-- handler of src/products/products.controller.ts; and the debug endpoint of
-- src/debug/debug.controller.ts.
use nodejs_pro_task.Base.{ℕ, Option, none, some, true, Bool}
use nodejs_pro_task.Errors.{Result, ok, err}
use nodejs_pro_task.Exec.{Exec, pure, ◌>>=◌}
use nodejs_pro_task.Schema.{Product}
use nodejs_pro_task.Database.{Database}
use nodejs_pro_task.Messages.{ProcessOrderMessage}
use nodejs_pro_task.RabbitMq.{Amqp, Service, send}
use nodejs_pro_task.Orders.Listing.{not_found}

module _ (D : Database) where
  -- `ProductsService.findById`
  abbrev pub find_product_by_id : ℕ → D.Db → Result (Option Product)
  find_product_by_id id d = D.find_product id d

  -- `ProductsController.findById`
  unfoldable pub get_product : ℕ → D.Db → Result Product
  get_product id d = elim (find_product_by_id id d) [
    | err e ↦ err e
    | ok none ↦ err (not_found "Product not found")
    | ok (some p) ↦ ok p
  ]

-- `DebugController.processOrder`: the message goes to the queue as the validation pipe has
-- left it, which takes off what has no decorator.
unfoldable pub process_order : (A : Amqp) → ProcessOrderMessage → Exec (Service A) Bool
process_order A message = do written ← send A "orders.process" message; pure true
