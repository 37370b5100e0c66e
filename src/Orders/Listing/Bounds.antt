-- ===== src/Orders/Listing/Bounds.antt =====
-- How many orders a response has (src/orders/orders.controller.ts, find of orders.repository.ts).
use nodejs_pro_task.Base.{
  ℕ, suc, ◌*◌, ◌≤◌, ◌≡◌, sym, ap, subst, ◌∙◌, inl, inr, Option, some, List, [], ◌∷◌, arith, length,
  drop, length-take, length-map,
}
use nodejs_pro_task.Base.Int.{pos}
use nodejs_pro_task.Errors.{ok, ok_injective, Result-cases}
use nodejs_pro_task.Schema.{OrderStatus}
use nodejs_pro_task.Database.{Database}
use nodejs_pro_task.Database.Queries.{LoadedOrder}
use nodejs_pro_task.Orders.Listing.{
  OrderFilter, OrderResponseDto, GetMany, to_dto, list, list_orders,
}
use nodejs_pro_task.Orders.Listing.Contract.{row_ids, Lists}
use nodejs_pro_task.Orders.Listing.Own.{to_dto-cons}
use nodejs_pro_task.Orders.Listing.Pages.{list-page}

-- No order is lost or added on the way to the response.
length-to_dto :
    (os : List LoadedOrder) (rs : List OrderResponseDto) → to_dto os ≡ ok rs → length rs ≡ length os
unfolding to_dto
length-to_dto [] rs h = ap length (sym (ok_injective h))
length-to_dto (o ∷ os) rs h =
    let (r, rest, f, g, same) = to_dto-cons o os rs h in
    ap length (sym same) ∙ ap suc (length-to_dto os rest g)

module _ (D : Database) (get_many : GetMany D) (lists : Lists D get_many) where
  -- With a query that obeys its contract, a page that is at least 1 and a limit that is at least
  -- 1, a response to a list of orders that returns has at most as many orders as the limit.
  pub list_orders-length :
      (user p limit : ℕ) (status : OrderStatus) (from to : Option ℕ) (d : D.Db)
      (rs : List OrderResponseDto)
      → list_orders D get_many user status (pos (suc p)) (pos (suc limit)) from to d ≡ ok rs
      → length rs ≤ suc limit
  unfolding list_orders
  list_orders-length user p limit status from to d rs h =
      let filter : OrderFilter = record {
        status = status;
        user_id = some user;
        from = from;
        to = to;
      } in
      elim (Result-cases (list D get_many filter (pos (suc p)) (pos (suc limit)) d)) [
        | inr (x, f) ↦ absurd (ground arith)
        | inl (os, f) ↦
            let (rows, _, page) = list-page D get_many lists filter limit d p os f in
            let short = length-take (suc limit) (drop (p * suc limit) (row_ids rows)) in
            let same = length-to_dto os rs (ground arith) in
            subst (λ n. n ≤ suc limit)
              (sym (same ∙ sym (length-map (λ o. o.id) os) ∙ ap length page)) short
      ]
