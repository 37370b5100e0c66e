-- ===== src/Orders/Service/Unannounced.antt =====
-- An order that is committed while the messaging service has no channel
-- (src/orders/orders.service.ts).
use nodejs_pro_task.Base.{
  ℕ, ◌≡◌, refl, sym, subst, ◌∙◌, inl, inr, true, false, none, some, List, arith, distinct, ◌≢◌, [],
}
use nodejs_pro_task.Errors.{ok, err, plain}
use nodejs_pro_task.Database.{Database}
use nodejs_pro_task.Database.Contract.{Laws, IsUp, HasKey}
use nodejs_pro_task.Database.Queries.{LoadedOrder}
use nodejs_pro_task.RabbitMq.{Amqp, send, get_channel}
use nodejs_pro_task.UnitOfWork.{transaction, settle}
use nodejs_pro_task.UnitOfWork.Outcome.{opened, async_dispose_finishes, transaction-start}
use nodejs_pro_task.Orders.Service.{World, place_order, announce, create_order}
use nodejs_pro_task.Orders.Service.Reservation.{OrderItemDto, all_positive}
use nodejs_pro_task.Orders.Service.Reserved.{ids_of}
use nodejs_pro_task.Orders.Service.Placement.{CanPlace}
use nodejs_pro_task.Orders.Service.Creation.{place_order-cases}
use nodejs_pro_task.Orders.Service.Guarantees.{Placed, Created-Placed, create_order_repeated}
use nodejs_pro_task.Orders.Service.Total.{place_order_returns}
use nodejs_pro_task.Orders.Service.Idempotency.{create_order_finds, Placed-HasKey}

module _ (D : Database) (laws : Laws D) (up : IsUp D) (user key : ℕ) (asked : List OrderItemDto)
    (v : all_positive asked ≡ true) where
  committed_anyway :
      (d s : D.Db) (o : LoadedOrder)
      → D.start d ≡ ok s
      → (place_order D user asked key (opened D d s)).0 ≡ ok (o, false)
      → (id : ℕ) × Placed
          (D.view d)
          (D.view (place_order D user asked key (opened D d s)).1.committed)
          user
          key
          asked
          id
  committed_anyway d s o started h = elim (place_order-cases D user key asked (opened D d s) refl) [
    | inl (e, f, _) ↦ absurd (ground arith)
    | inr (inl (o', f, _)) ↦ absurd (ground arith)
    | inr (inr (o', f, new)) ↦ (
      o'.id,
      Created-Placed D laws user key asked d s (place_order D user asked key (opened D d s)).1 o'
          started v new,
    )
  ]

  unsent :
      (A : Amqp) (moment : ℕ) (w : World D A) (o : LoadedOrder) (d : D.Db)
      → w.rabbitmq ≡ none
      → announce D A moment (ok (o, false)) (record w { db = d })
        ≡ (err (plain "Channel is not created!"), record w { db = d })
  unfolding announce send get_channel
  unsent A moment w o d closed = ground arith

  -- On a database that is up and without a channel, a request of a user who is there that can be
  -- placed (at least one item, positive quantities, distinct products, enough in stock), with a
  -- key that the user has not used, throws although its order is placed; and when a channel is
  -- there again, a request with the same key returns an order and sends nothing, so that the order
  -- is never announced.
  pub create_order_unannounced :
      (A : Amqp) (moment later : ℕ) (again : List OrderItemDto) (w : World D A) (ch : A.Channel)
      → distinct (ids_of asked) ≡ true
      → asked ≢ []
      → w.rabbitmq ≡ none
      → (¬ HasKey D (D.view w.db) user key)
      → (D.view w.db).users user ≢ none
      → CanPlace asked (D.view w.db)
      → let (r, w') = create_order D A moment user asked key w in
        let w₁ = record w' { rabbitmq = some ch } in
        let (r₂, w₂) = create_order D A later user again key w₁ in
        (r ≡ err (plain "Channel is not created!"))
        × ((id : ℕ) × Placed (D.view w.db) (D.view w'.db) user key asked id)
        × (w₂ ≡ w₁)
        × ((o : LoadedOrder) × (r₂ ≡ ok o))
  unfolding create_order
  create_order_unannounced A moment later again w ch unique some_items closed absent known can =
      let (s, started) = up.starts w.db in
      let (o, returns) =
        place_order_returns D laws up user key asked v unique some_items w.db s started absent known
          can in
      let (id, placed) = committed_anyway w.db s o started returns in
      let ends = transaction-start D (place_order D user asked key) w.db s started in
      let c = (place_order D user asked key (opened D w.db s)).1 in
      let (released, _, _, _) = async_dispose_finishes D c up in
      let result : (transaction D (place_order D user asked key) w.db).0 ≡ ok (o, false) =
        (λ i. (ends i).0) ∙ (λ i. settle D (returns i) (released i)) in
      let stored : (transaction D (place_order D user asked key) w.db).1 ≡ c.committed =
        λ i. (ends i).1 in
      let w' = (create_order D A moment user asked key w).1 in
      let ended : create_order D A moment user asked key w
          ≡ (err (plain "Channel is not created!"), record w { db = c.committed }) =
        (λ i. announce D A moment (result i) (record w { db = stored i }))
        ∙ unsent A moment w o c.committed closed in
      let kept : w'.db ≡ c.committed = λ i. (ended i).1.db in
      let there =
        subst (λ (d : D.Db). Placed (D.view w.db) (D.view d) user key asked id) (sym kept) placed in
      let used = Placed-HasKey D laws user key (D.view w.db) (D.view w'.db) asked id there in
      let w₁ : World D A = record w' { rabbitmq = some ch } in
      let (same, _) = create_order_repeated D A laws later user key again w₁ used in
      let (o', found) = create_order_finds D laws user key A later again w₁ up used in
      ((λ i. (ended i).0), (id, there), same, (o', found))
