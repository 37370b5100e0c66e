-- ===== src/Orders/Service/Outcome.antt =====
-- The two ways in which a call of `createOrder` can end: nothing has changed, or one new order is
-- committed (src/orders/orders.service.ts).
use nodejs_pro_task.Base.{
  ℕ, ◌≡◌, refl, sym, ap, subst, ◌∙◌, ◌⊎◌, inl, inr, Bool, true, false, List, arith,
}
use nodejs_pro_task.Errors.{Exception, suppressed, Result, ok, err, Result-cases}
use nodejs_pro_task.Database.{Database}
use nodejs_pro_task.Database.Queries.{LoadedOrder}
use nodejs_pro_task.Messages.{new_message}
use nodejs_pro_task.RabbitMq.{Amqp, send}
use nodejs_pro_task.UnitOfWork.{Transaction, async_dispose, settle, transaction}
use nodejs_pro_task.UnitOfWork.Outcome.{opened, transaction-no_start, transaction-start}
use nodejs_pro_task.Orders.Service.{World, place_order, announce, create_order}
use nodejs_pro_task.Orders.Service.Reservation.{OrderItemDto}
use nodejs_pro_task.Orders.Service.Steps.{Failed}
use nodejs_pro_task.Orders.Service.Creation.{
  Repeated, Created, place_order-cases, Announced, announced,
}

module _ (D : Database) (A : Amqp) (moment user key : ℕ) (asked : List OrderItemDto)
    (w : World D A) where
  -- Nothing has changed; a call that returns has found the key's order.
  pub record Unchanged (out : Result LoadedOrder × World D A) : Type 0 where
    pub same : out.1 ≡ w
    pub returned :
        (o : LoadedOrder)
        → out.0 ≡ ok o
        → (s : D.Db) × (D.start w.db ≡ ok s)
          × Repeated D user key asked (opened D w.db s) (opened D w.db s) o

  -- A new order is committed.
  pub record Changed (out : Result LoadedOrder × World D A) : Type 0 where
    pub begun : D.Db
    pub final : Transaction D
    pub order : LoadedOrder
    pub starts : D.start w.db ≡ ok begun
    pub creation : Created D user key asked (opened D w.db begun) final order
    pub stored : out.1.db ≡ final.committed
    pub announcement : Announced D A moment user key asked w order out

  announce-stored :
      (o : LoadedOrder) (d : D.Db)
      → (announce D A moment (ok (o, false)) (record w { db = d })).1.db ≡ d
  unfolding announce
  announce-stored o d =
      elim (Result-cases (send A "orders.process" (new_message moment o.id o.id) w.rabbitmq).0) [
        | inl (b, e) ↦ rw (e, announce)
        | inr (x, e) ↦ rw (e, announce)
      ]

  create_order-announce :
      (r : Result (LoadedOrder × Bool)) (d : D.Db)
      → transaction D (place_order D user asked key) w.db ≡ (r, d)
      → create_order D A moment user asked key w ≡ announce D A moment r (record w { db = d })
  unfolding create_order
  create_order-announce r d e = λ i. announce D A moment (e i).0 (record w { db = (e i).1 })

  -- By the result of the transaction, which has left `d` committed.
  failed :
      (x : Exception) (d : D.Db)
      → transaction D (place_order D user asked key) w.db ≡ (err x, d)
      → d ≡ w.db
      → Unchanged (create_order D A moment user asked key w)
  failed x d t same =
      subst Unchanged (sym (create_order-announce (err x) d t))
        (unfold announce in record { same = ground arith; returned = λ o h. absurd (ground arith) })

  settled :
      (x : Exception) (d : D.Db) (r : Result (Unit {0}))
      → transaction D (place_order D user asked key) w.db ≡ (settle D (err x) r, d)
      → d ≡ w.db
      → Unchanged (create_order D A moment user asked key w)
  settled x d (ok u) = failed x d
  settled x d (err y) = failed (suppressed y x) d

  repeated :
      (s : D.Db) (o : LoadedOrder) (c : Transaction D) (r : Result (Unit {0}))
      → D.start w.db ≡ ok s
      → transaction D (place_order D user asked key) w.db ≡ (settle D (ok (o, true)) r, c.committed)
      → Repeated D user key asked (opened D w.db s) c o
      → Unchanged (create_order D A moment user asked key w)
  repeated s o c (err x) e t rep =
      failed x c.committed t (ap (λ (y : Transaction D). y.committed) rep.untouched)
  repeated s o c (ok u) e t rep =
      subst Unchanged (sym (create_order-announce (ok (o, true)) c.committed t)) (
        unfold announce in
        record {
          same = λ i. record w { db = (rep.untouched i).committed };
          returned = λ l h. (s, e, found l (ground arith));
        })
    where
      begun : Transaction D
      begun = opened D w.db s

      found : (l : LoadedOrder) → o ≡ l → Repeated D user key asked begun begun l
      found l h =
          subst (λ x. Repeated D user key asked begun begun x) h
            (subst (λ y. Repeated D user key asked begun y o) rep.untouched rep)

  created :
      (s : D.Db) (o : LoadedOrder) (c : Transaction D) (r : Result (Unit {0}))
      → D.start w.db ≡ ok s
      → transaction D (place_order D user asked key) w.db
        ≡ (settle D (ok (o, false)) r, c.committed)
      → Created D user key asked (opened D w.db s) c o
      → Changed (create_order D A moment user asked key w)
  created s o c (err x) e t new =
      subst Changed (sym (create_order-announce (err x) c.committed t)) (
        unfold announce in
        record {
          begun = s;
          final = c;
          order = o;
          starts = e;
          creation = new;
          stored = refl;
          announcement = inr (x, refl, refl);
        })
  created s o c (ok u) e t new =
      subst Changed (sym (create_order-announce (ok (o, false)) c.committed t)) (record {
        begun = s;
        final = c;
        order = o;
        starts = e;
        creation = new;
        stored = announce-stored o c.committed;
        announcement = announced D A moment user key asked w o c.committed;
      })

  pub create_order-cases :
      Unchanged (create_order D A moment user asked key w)
      ⊎ Changed (create_order D A moment user asked key w)
  create_order-cases = elim (Result-cases (D.start w.db)) [
    | inr (x, e) ↦ inl (failed x w.db (transaction-no_start D _ w.db x e) refl)
    | inl (s, e) ↦ ran s e (place_order-cases D user key asked (opened D w.db s) refl)
  ]
    where
      end : D.Db → Transaction D
      end s = (place_order D user asked key (opened D w.db s)).1

      closed : D.Db → Result (Unit {0})
      closed s = (async_dispose D (end s)).0

      begin :
          (s : D.Db)
          → D.start w.db ≡ ok s
          → (r : Result (LoadedOrder × Bool))
          → (place_order D user asked key (opened D w.db s)).0 ≡ r
          → transaction D (place_order D user asked key) w.db
            ≡ (settle D r (closed s), (end s).committed)
      begin s e r h =
          transaction-start D (place_order D user asked key) w.db s e
          ∙ ap (λ (x : Result (LoadedOrder × Bool)). (settle D x (closed s), (end s).committed)) h

      ran :
          (s : D.Db)
          → D.start w.db ≡ ok s
          → Failed D (opened D w.db s) (place_order D user asked key (opened D w.db s))
            ⊎ (((o : LoadedOrder) × ((place_order D user asked key (opened D w.db s)).0
                    ≡ ok (o, true))
                  × Repeated D user key asked
                      (opened D w.db s)
                      (place_order D user asked key (opened D w.db s)).1
                      o)
                ⊎ ((o : LoadedOrder) × ((place_order D user asked key (opened D w.db s)).0
                      ≡ ok (o, false))
                    × Created D user key asked
                        (opened D w.db s)
                        (place_order D user asked key (opened D w.db s)).1
                        o))
          → Unchanged (create_order D A moment user asked key w)
            ⊎ Changed (create_order D A moment user asked key w)
      ran s e (inl (x, h, same)) =
          inl (settled x (end s).committed (closed s) (begin s e (err x) h) same)
      ran s e (inr (inl (o, h, rep))) =
          inl (repeated s o (end s) (closed s) e (begin s e (ok (o, true)) h) rep)
      ran s e (inr (inr (o, h, new))) =
          inr (created s o (end s) (closed s) e (begin s e (ok (o, false)) h) new)
