-- ===== src/Http/Refusals.antt =====
-- What a client is told about an order that cannot be placed (the handler of
-- src/orders/orders.controller.ts with src/common/http-exception.filter.ts).
use nodejs_pro_task.Base.{
  ℕ, ◌≤◌, ◌≡◌, ◌≢◌, ◌⊎◌, refl, ap, ◌∙◌, sym, inl, inr, true, none, some, List, [], ◌∷◌, distinct,
  arith,
}
use nodejs_pro_task.Base.Int.{ℤ, pos, ltb_ℤ}
use nodejs_pro_task.Errors.{
  DomainError, cannot_find_products, not_enough_items_in_stock, failed_to_create_order,
  entity_not_found, duplicate_entity_creation, incorrect_password, Exception, domain, err, code,
  http_status, details, num, uuid, undefined,
}
use nodejs_pro_task.Schema.{Product, Tables}
use nodejs_pro_task.Database.{Database}
use nodejs_pro_task.Database.Contract.{Laws, IsUp, HasKey}
use nodejs_pro_task.RabbitMq.{Amqp}
use nodejs_pro_task.Orders.Listing.{post_order}
use nodejs_pro_task.Orders.Service.{World}
use nodejs_pro_task.Orders.Service.Reservation.{OrderItemDto, asked_qty}
use nodejs_pro_task.Orders.Service.Reserved.{ids_of}
use nodejs_pro_task.Orders.Service.Placement.{CanPlace}
use nodejs_pro_task.Orders.Service.Counting.{missing}
use nodejs_pro_task.Orders.Service.Refusal.{Reason, create_order_refuses}
use nodejs_pro_task.Http.Correlation.{Request}
use nodejs_pro_task.Http.Filter.{ErrorBody, catch_exception}

-- Products that are not there, and how many.
abbrev pub TellsMissing : List OrderItemDto → Tables → ℕ × ErrorBody → Type 0
TellsMissing asked t (status, body) =
    (status ≡ 404)
    × (body.code ≡ "CANNOT_FIND_PRODUCTS")
    × (1 ≤ missing (ids_of asked) t)
    × (body.details
        ≡ some (
            ("missingProductsCount", num (pos (missing (ids_of asked) t)))
            ∷ ("missingProductIds", undefined)
            ∷ []))

-- A product that has less in stock than is asked for.
abbrev pub TellsShort : List OrderItemDto → Tables → ℕ × ErrorBody → Type 0
TellsShort asked t (status, body) =
    (p : Product) × (q : ℤ) × (status ≡ 409)
    × (body.code ≡ "NOT_ENOUGH_ITEMS_IN_STOCK")
    × (t.products p.id ≡ some p)
    × (asked_qty p.id asked ≡ some q)
    × (ltb_ℤ p.stock q ≡ true)
    × (body.details
        ≡ some (("productId", uuid p.id) ∷ ("askedQty", num q) ∷ ("stock", num p.stock) ∷ []))

answer :
    (asked : List OrderItemDto) (t : Tables) (req : Request) (e : DomainError)
    → ((j : ℕ) (p : Product) → t.products j ≡ some p → p.id ≡ j)
    → Reason asked t e
    → TellsMissing asked t (catch_exception (domain e) req)
      ⊎ TellsShort asked t (catch_exception (domain e) req)
unfolding catch_exception http_status code details
answer asked t req (cannot_find_products n none) ids (count, some_missing, _) = inl (
  refl,
  refl,
  some_missing,
  ap (λ m. some (("missingProductsCount", num m) ∷ ("missingProductIds", undefined) ∷ [])) count,
)
answer asked t req (cannot_find_products n (some is)) ids (count, some_missing, h) =
    absurd (ground arith)
answer asked t req (not_enough_items_in_stock j q stock) ids (p, there, left, asks, short) =
    let same = ids j p there in
    inr (
      p,
      q,
      refl,
      refl,
      ap t.products same ∙ there,
      ap (λ i. asked_qty i asked) same ∙ asks,
      ap (λ s. ltb_ℤ s q) left ∙ short,
      λ i. some (
          ("productId", uuid (sym same i))
          ∷ ("askedQty", num q)
          ∷ ("stock", num (sym left i))
          ∷ []),
    )
answer asked t req failed_to_create_order ids h = absurd h
answer asked t req (entity_not_found n d) ids h = absurd h
answer asked t req (duplicate_entity_creation n d) ids h = absurd h
answer asked t req (incorrect_password d) ids h = absurd h

module _ (D : Database) (laws : Laws D) (up : IsUp D) (user key : ℕ) (asked : List OrderItemDto)
    (unique : distinct (ids_of asked) ≡ true) where
  -- On a database that is up, the handler of a new order, for a user who is there, a key that the
  -- user has not used and distinct products that cannot be placed, throws and leaves the world as
  -- it was, and the client is answered 404 with the code CANNOT_FIND_PRODUCTS and the number of
  -- the products that are not there, which is at least one, or 409 with the code
  -- NOT_ENOUGH_ITEMS_IN_STOCK and a product, the quantity asked for and its stock, which is less.
  pub post_order_refuses :
      (A : Amqp) (moment : ℕ) (w : World D A) (req : Request)
      → (¬ HasKey D (D.view w.db) user key)
      → (D.view w.db).users user ≢ none
      → (¬ CanPlace asked (D.view w.db))
      → (e : Exception) × (post_order D A moment user asked (some key) w ≡ (err e, w))
        × (TellsMissing asked (D.view w.db) (catch_exception e req)
            ⊎ TellsShort asked (D.view w.db) (catch_exception e req))
  unfolding post_order
  post_order_refuses A moment w req absent known cannot =
      let (e, refused, reason) =
        create_order_refuses D laws up user key asked unique A moment w absent known cannot in
      (domain e, refused, answer asked (D.view w.db) req e (laws.product_id w.db) reason)
