-- ===== src/Orders/Service/Total.antt =====
-- `createOrder` is total where it can be: on a database that is up, with an open channel, it returns
-- (src/orders/orders.service.ts).
use nodejs_pro_task.Base.{
  ℕ, ◌≡◌, refl, sym, ap, subst, ◌∙◌, inl, inr, Bool, true, false, none, some, List, Option-cases,
  ==-refl, contains, distinct, arith, if◌then◌else◌, ◌≢◌, [],
}
use nodejs_pro_task.Errors.{Result, ok}
use nodejs_pro_task.Schema.{Order, Product, Tables}
use nodejs_pro_task.Database.{Database}
use nodejs_pro_task.Database.Contract.{
  AreNew, ChangesStock, Laws, IsUp, HasKey, IsNewOrder, with_order, with_items, with_products,
}
use nodejs_pro_task.Database.Queries.{LoadedOrder, NewItem, product_for}
use nodejs_pro_task.Messages.{json, new_message}
use nodejs_pro_task.RabbitMq
use nodejs_pro_task.RabbitMq.{Amqp, send, get_channel}
use nodejs_pro_task.UnitOfWork.{Transaction, commit, transaction, settle}
use nodejs_pro_task.UnitOfWork.Outcome.{opened, async_dispose_finishes, transaction-start}
use nodejs_pro_task.Orders.Repository.{
  find_options, by_id, find_by_ids, extend_products, extend_items, find_one, add,
}
use nodejs_pro_task.Orders.Service.{World, fill_order, place_order, announce, create_order}
use nodejs_pro_task.Orders.Service.Reservation.{OrderItemDto, all_positive}
use nodejs_pro_task.Orders.Service.Reserved.{ids_of-some, ids_of}
use nodejs_pro_task.Orders.Service.Placement.{CanPlace}
use nodejs_pro_task.Orders.Service.Refinement.{items_new, stock_changed}
use nodejs_pro_task.Orders.Service.Possible.{reserve_possible, all_enough, all_counted}

-- The order is there after its items and the products are saved.
still_stands :
    (D : Database) (t₀ t₁ t₂ : Tables) (o : Order) (m₁ m₂ : ℕ) (is : List NewItem)
    (ps : List Product)
    → t₁ ≡ with_items D t₀ m₁ is
    → t₂ ≡ with_products D t₁ m₂ ps
    → t₀.orders o.id ≡ some o
    → t₂.orders o.id ≡ some o
still_stands D t₀ t₁ t₂ o m₁ m₂ is ps e f h =
    ap (λ (t : Tables). t.orders o.id) f ∙ ap (λ (t : Tables). t.orders o.id) e ∙ h

module _ (D : Database) (laws : Laws D) (up : IsUp D) (user key : ℕ) (asked : List OrderItemDto)
    (v : all_positive asked ≡ true) (unique : distinct (ids_of asked) ≡ true)
    (some_items : asked ≢ []) where
  -- The body of the transaction goes through for a new order that can be placed.
  fill_order_returns :
      (before : D.Db) (row : Order) (c : Transaction D)
      → IsNewOrder D before user key row
      → D.view c.working ≡ with_order D (D.view before) row
      → c.finished ≡ false
      → CanPlace asked (D.view before)
      → (o : LoadedOrder) × ((fill_order D row.id asked c).0 ≡ ok (o, false))
  unfolding fill_order find_by_ids extend_items extend_products find_one commit
  fill_order_returns before row c new seen open_tx can =
      let t = D.view before in
      let (ps, e₁) = up.locks (ids_of asked) c.working (ids_of-some asked some_items) in
      let lock = laws.lock_products-ok (ids_of asked) c.working ps e₁ in
      let locked : (j : ℕ)
          → product_for j ps ≡ (if contains (ids_of asked) j then t.products j else none) =
        λ j.
          lock.1 j
          ∙ ap (λ (s : Tables). if contains (ids_of asked) j then s.products j else none) seen in
      let known = laws.product_id before in
      let n = all_counted t asked ps known locked lock.0 can unique in
      let (rows, left, e₂) =
        reserve_possible row.id asked ps lock.0 (all_enough t asked ps known locked lock.0 can) in
      let loop = items_new t row asked ps rows left known locked e₂ in
      let stands : (D.view c.working).orders row.id ≡ some row =
        ap (λ (s : Tables). s.orders row.id) seen ∙ ground (arith, ==-refl row.id) in
      let fresh : AreNew D (D.view c.working) rows =
        λ o j i h. rw (seen, ← (loop o j i h).0) (new.no_items j) in
      let (w₁, e₃) = up.saves_items rows c.working fresh (λ o j i h. (
        (λ e. let same = (loop o j i h).0 in cc),
        (λ e. (loop o j i h).1 (ap (λ (s : Tables). s.products j) (sym seen) ∙ e)),
      )) in
      let stored_items = laws.save_items-ok rows c.working w₁ fresh e₃ in
      let changes : ChangesStock D (D.view w₁) left = λ j p h.
        rw (stored_items.0, seen)
          (stock_changed t row asked ps rows left known locked e₂ v j p h) in
      let (w₂, e₄) = up.saves_products left w₁ changes in
      let stored_products = laws.save_products-ok left w₁ w₂ changes e₄ in
      let there : (D.view w₂).orders row.id ≡ some row =
        still_stands D (D.view c.working) (D.view w₁) (D.view w₂) row (D.now c.working) (D.now w₁)
          rows left stored_items.0 stored_products.0 stands in
      let (found, e₅) = up.finds (find_options (by_id row.id none)) w₂ in
      let (d, e₆) = up.commits w₂ in
      elim (Option-cases found) [
        | inl e ↦
            let missed =
              laws.find_one-none (find_options (by_id row.id none)) w₂ row (e₅ ∙ ap ok e) there in
            absurd (ground (arith, ==-refl row.id))
        | inr (l, e) ↦ (l, ground arith)
      ]

  -- The callback of the transaction goes through for a key that the user has not used.
  pub place_order_returns :
      (d s : D.Db)
      → D.start d ≡ ok s
      → (¬ HasKey D (D.view d) user key)
      → (D.view d).users user ≢ none
      → CanPlace asked (D.view d)
      → (o : LoadedOrder) × ((place_order D user asked key (opened D d s)).0 ≡ ok (o, false))
  unfolding place_order add
  place_order_returns d s started absent known can =
      let same = laws.start_lem d s started in
      let unused : ¬ HasKey D (D.view s) user key =
        λ h. absent (subst (λ (t : Tables). HasKey D t user key) same h) in
      let (row, w, e) =
        up.saves_order user key s unused
          (λ e. known (ap (λ (t : Tables). t.users user) (sym same) ∙ e)) in
      let (_, fresh, saved, _) = laws.save_order-ok user key s w row e in
      let (o, f) =
        fill_order_returns s row (record (opened D d s) { working = w }) fresh saved refl
          (subst (CanPlace asked) (sym same) can) in
      (o, ground arith)

  module _ (A : Amqp) (is_open : RabbitMq.IsOpen A) (moment : ℕ) (w : World D A) (ch : A.Channel)
      (channel : w.rabbitmq ≡ some ch) where
    announce_returns :
        (o : LoadedOrder) (d : D.Db)
        → (announce D A moment (ok (o, false)) (record w { db = d })).0 ≡ ok o
    unfolding announce send get_channel
    announce_returns o d =
        let ((b, ch'), e) =
          is_open.sends "orders.process" (json (new_message moment o.id o.id))
            (record { persistent = true; message_id = o.id }) ch in
        ground arith

    -- With a database that is up and an open channel, a request of a user who is there, with a key
    -- that the user has not used, for at least one item, of positive quantities and distinct
    -- products that all have enough in stock, returns an order.
    pub create_order_returns :
        (¬ HasKey D (D.view w.db) user key)
        → (D.view w.db).users user ≢ none
        → CanPlace asked (D.view w.db)
        → (o : LoadedOrder) × ((create_order D A moment user asked key w).0 ≡ ok o)
    unfolding create_order
    create_order_returns absent known can =
        let (s, started) = up.starts w.db in
        let (o, placed) = place_order_returns w.db s started absent known can in
        let ends = transaction-start D (place_order D user asked key) w.db s started in
        let c = (place_order D user asked key (opened D w.db s)).1 in
        let (released, _, _, _) = async_dispose_finishes D c up in
        let result : (transaction D (place_order D user asked key) w.db).0 ≡ ok (o, false) =
          (λ i. (ends i).0) ∙ (λ i. settle D (placed i) (released i)) in
        let d = (transaction D (place_order D user asked key) w.db).1 in
        (
          o,
          ap (λ (r : Result (LoadedOrder × Bool)). (announce D A moment r (record w { db = d })).0)
                result
              ∙ announce_returns o d,
        )
