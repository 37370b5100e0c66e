-- ===== src/Orders/Service/Idempotency.antt =====
-- The same request again: one order for one key (src/orders/orders.service.ts).
use nodejs_pro_task.Base.{
  ℕ, ◌≡◌, sym, ap, subst, ◌∙◌, inl, inr, Bool-cases, Bool, true, some, List, ◌==◌, ==-refl,
  eq_of_==, arith,
}
use nodejs_pro_task.Errors.{Result, ok, err}
use nodejs_pro_task.Schema.{Order, Tables}
use nodejs_pro_task.Database.{Database}
use nodejs_pro_task.Database.Contract.{Laws, IsUp, HasKey, unique_violation}
use nodejs_pro_task.Database.Queries.{LoadedOrder, meets}
use nodejs_pro_task.RabbitMq
use nodejs_pro_task.RabbitMq.{Amqp}
use nodejs_pro_task.UnitOfWork.{transaction, settle}
use nodejs_pro_task.UnitOfWork.Outcome.{opened, async_dispose_finishes, transaction-start}
use nodejs_pro_task.Orders.Repository.{find_options, by_key, add, recover_add, is_duplicate_error}
use nodejs_pro_task.Orders.Service.{World, place_order, announce, create_order}
use nodejs_pro_task.Orders.Service.Reservation.{OrderItemDto, all_positive}
use nodejs_pro_task.Orders.Service.Guarantees.{Placed, create_order_new, create_order_repeated}

module _ (D : Database) (laws : Laws D) (user key : ℕ) where
  -- On a database that is up the transaction finds the order of a key that the user has used.
  place_order_finds :
      (asked : List OrderItemDto) (d s : D.Db)
      → IsUp D
      → D.start d ≡ ok s
      → HasKey D (D.view d) user key
      → (o : LoadedOrder) × ((place_order D user asked key (opened D d s)).0 ≡ ok (o, true))
  unfolding place_order add recover_add is_duplicate_error
  place_order_finds asked d s up started (row, stored, u, k) =
      let same = laws.start_lem d s started in
      let refused : D.save_order user key s ≡ err unique_violation =
        up.refuses_order user key s
          (subst (λ (t : Tables). HasKey D t user key) (sym same) (row, stored, u, k)) in
      let met : meets (find_options (by_key user key)) row ≡ true =
        ground (arith, ==-refl user, ==-refl key) in
      let (o, found) = up.finds_or_fails (find_options (by_key user key)) d row stored met in
      (o, ground arith)

  -- After an order was placed its row is the only one of its key.
  only_one :
      (before after : Tables) (asked : List OrderItemDto) (id : ℕ) (other : Order)
      → Placed before after user key asked id
      → (¬ HasKey D before user key)
      → after.orders other.id ≡ some other
      → other.user_id ≡ user
      → other.idempotency_key ≡ key
      → other.id ≡ id
  only_one before after asked id other p absent stored u k =
      let there = ap (λ (t : Tables). t.orders other.id) (sym p.placed) ∙ stored in
      elim (Bool-cases (other.id == p.row.id)) [
        | inl same ↦ eq_of_== other.id p.row.id same ∙ p.named
        | inr differs ↦ absurd (absent (other, ground arith, u, k))
      ]

  pub Placed-HasKey :
      (before after : Tables) (asked : List OrderItemDto) (id : ℕ)
      → Placed before after user key asked id
      → HasKey D after user key
  Placed-HasKey before after asked id p = (
    p.row,
    ap (λ (t : Tables). t.orders p.row.id) p.placed ∙ ground (arith, ==-refl p.row.id),
    p.of_user,
    p.of_key,
  )

  module _ (A : Amqp) where
    pub create_order_finds :
        (moment : ℕ) (asked : List OrderItemDto) (w : World D A)
        → IsUp D
        → HasKey D (D.view w.db) user key
        → (o : LoadedOrder) × ((create_order D A moment user asked key w).0 ≡ ok o)
    unfolding create_order announce
    create_order_finds moment asked w up used =
        let (s, started) = up.starts w.db in
        let (o, found) = place_order_finds asked w.db s up started used in
        let ends = transaction-start D (place_order D user asked key) w.db s started in
        let c = (place_order D user asked key (opened D w.db s)).1 in
        let (released, _, _, _) = async_dispose_finishes D c up in
        let result : (transaction D (place_order D user asked key) w.db).0 ≡ ok (o, true) =
          (λ i. (ends i).0) ∙ (λ i. settle D (found i) (released i)) in
        let d = (transaction D (place_order D user asked key) w.db).1 in
        (
          o,
          ap (λ (r : Result (LoadedOrder × Bool)). (announce D A moment r (record w { db = d })).0)
              result,
        )

    -- After a call that has placed an order, a second call of the user with the same key, whatever its
    -- body, returns on a database that is up; it returns the order that the first call has returned, by
    -- its identifier, and neither the tables nor the queue change.
    pub create_order_twice :
        (moment later : ℕ) (asked again : List OrderItemDto) (w : World D A) (o : LoadedOrder)
        → IsUp D
        → RabbitMq.Laws A
        → all_positive asked ≡ true
        → (¬ HasKey D (D.view w.db) user key)
        → (create_order D A moment user asked key w).0 ≡ ok o
        → let w' = (create_order D A moment user asked key w).1 in
          let (r, w'') = create_order D A later user again key w' in
          (w'' ≡ w') × ((o' : LoadedOrder) × (r ≡ ok o') × (o'.id ≡ o.id))
    create_order_twice moment later asked again w o up amqp v absent h =
        let w' = (create_order D A moment user asked key w).1 in
        let (p, _) = create_order_new D A laws moment user key asked w o amqp v absent h in
        let used = Placed-HasKey (D.view w.db) (D.view w'.db) asked o.id p in
        let (same, loaded) = create_order_repeated D A laws later user key again w' used in
        let (o', found) = create_order_finds later again w' up used in
        let l = loaded o' found in
        let met = l.met in
        let one =
          only_one (D.view w.db) (D.view w'.db) asked o.id l.row p absent l.stored
            (eq_of_== l.row.user_id user (ground arith))
            (eq_of_== l.row.idempotency_key key (ground arith)) in
        (same, (o', found, ap (λ (x : LoadedOrder). x.id) l.loaded ∙ one))
