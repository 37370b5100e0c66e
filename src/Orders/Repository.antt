-- ===== src/Orders/Repository.antt =====
-- src/orders/orders.repository.ts and order-items.repository.ts, and the repository of products
-- (src/products/products.repository.ts), on a transaction's connection.
use nodejs_pro_task.Base.{
  ℕ, String, Bool, true, false, Option, none, some, List, [], ◌∷◌, str_eq, if◌then◌else◌,
}
use nodejs_pro_task.Errors.{Exception, domain, http, driver, plain, suppressed, code, ok, err}
use nodejs_pro_task.Exec.{pure, raise, ◌>>=◌}
use nodejs_pro_task.Schema.{Order, Product}
use nodejs_pro_task.Database.{Database}
use nodejs_pro_task.Database.Queries.{LoadedOrder, OrderWhere, FindOptions, NewItem}
use nodejs_pro_task.UnitOfWork.{Action, reading, reading_committed, storing}

-- `DedupResult<Order>`
pub record DedupResult : Type 0 where
  pub result : LoadedOrder
  pub is_duplicate : Bool

abbrev pub order_select : List String
order_select = "id" ∷ "status" ∷ "idempotencyKey" ∷ "createdAt" ∷ "updatedAt" ∷ "processedAt" ∷ []

abbrev pub find_options : OrderWhere → FindOptions
find_options conditions = record {
  conditions = conditions;
  with_items = true;
  select = order_select;
}

abbrev pub by_key : ℕ → ℕ → OrderWhere
by_key user key = record { id = none; user_id = some user; idempotency_key = some key }

abbrev pub by_id : ℕ → Option ℕ → OrderWhere
by_id id user = record { id = some id; user_id = user; idempotency_key = none }

-- `String(err?.code) === "23505"`
unfoldable pub is_duplicate_error : Exception → Bool
unfolding code
is_duplicate_error (driver c) = str_eq c "23505"
is_duplicate_error (domain e) = str_eq (code e) "23505"
is_duplicate_error (http e) = false
is_duplicate_error (plain m) = false
is_duplicate_error (suppressed e f) = false

-- The entity that `save` returns: the given and the generated columns, and no relation.
abbrev pub saved : Order → LoadedOrder
saved o = record {
  id = o.id;
  status = o.status;
  created_at = o.created_at;
  user_id = some o.user_id;
  idempotency_key = some o.idempotency_key;
  updated_at = some o.updated_at;
  processed_at = some o.processed_at;
  items = none;
}

module _ (D : Database) where
  -- The `catch` of `add`: the violated constraint has aborted the transaction, so another connection
  -- looks for the order.
  unfoldable pub recover_add : ℕ → ℕ → Exception → Action D DedupResult
  recover_add user key e =
      if is_duplicate_error e
      then (do
        found ← reading_committed D (D.find_one_or_fail (find_options (by_key user key)))
        pure (record { result = found; is_duplicate = true }))
      else raise e

  unfoldable pub add : ℕ → ℕ → Action D DedupResult
  add user key c = elim (D.save_order user key c.working) [
    | ok (o, w) ↦ (ok (record { result = saved o; is_duplicate = false }), record c { working = w })
    | err e ↦ recover_add user key e c
  ]

  unfoldable pub find_one : OrderWhere → Action D (Option LoadedOrder)
  find_one conditions = reading D (D.find_one (find_options conditions))

  unfoldable pub find_by_ids : List ℕ → Action D (List Product)
  find_by_ids ids = reading D (D.lock_products ids)

  -- `productsRepo.extend`
  unfoldable pub extend_products : List Product → Action D (Unit {0})
  extend_products ps = storing D (D.save_products ps)

  -- `orderItemsRepo.extend`
  unfoldable pub extend_items : List NewItem → Action D (Unit {0})
  extend_items is = storing D (D.save_items is)
