-- ===== src/Orders/Service/Guarantees.antt =====
-- What `createOrder` guarantees on every call, whatever its result (src/orders/orders.service.ts).
use nodejs_pro_task.Base.{
  ℕ, ◌≡◌, sym, ap, subst, ◌∙◌, ◌⊎◌, inl, inr, true, none, some, List, [], ◌∷◌, ◌++◌, eq_of_==,
  arith, distinct,
}
use nodejs_pro_task.Errors.{Result, ok, err}
use nodejs_pro_task.Schema.{Order, created, Tables}
use nodejs_pro_task.Database.{Database}
use nodejs_pro_task.Database.Contract.{Laws, HasKey, IsLoaded}
use nodejs_pro_task.Database.Queries.{LoadedOrder}
use nodejs_pro_task.Messages.{json, new_message}
use nodejs_pro_task.RabbitMq
use nodejs_pro_task.RabbitMq.{Amqp}
use nodejs_pro_task.UnitOfWork.{Transaction}
use nodejs_pro_task.UnitOfWork.Outcome.{opened}
use nodejs_pro_task.Orders.Repository.{find_options, by_key, by_id}
use nodejs_pro_task.Orders.Service.{World, create_order}
use nodejs_pro_task.Orders.Service.Reservation.{OrderItemDto, all_positive}
use nodejs_pro_task.Orders.Service.Reserved.{ids_of}
use nodejs_pro_task.Orders.Service.Placement.{place, CanPlace}
use nodejs_pro_task.Orders.Service.Refinement.{Filled-place}
use nodejs_pro_task.Orders.Service.Creation.{Created, Announced, unique_violation_of}
use nodejs_pro_task.Orders.Service.Outcome.{Changed, create_order-cases}

-- A new order of the user stands in the tables, as `place` describes it.
pub record Placed (before after : Tables) (user key : ℕ) (asked : List OrderItemDto) (id : ℕ)
    : Type 0 where
  pub row : Order
  pub named : row.id ≡ id
  pub of_user : row.user_id ≡ user
  pub of_key : row.idempotency_key ≡ key
  pub is_created : row.status ≡ created
  pub fresh : before.orders row.id ≡ none
  pub placed : after ≡ place row asked before
  pub possible : CanPlace asked before
  pub no_duplicates : distinct (ids_of asked) ≡ true

module _ (D : Database) (laws : Laws D) (user key : ℕ) (asked : List OrderItemDto) where
  -- An order that is loaded by its identifier has that identifier.
  loaded_id :
      (d : D.Db) (id : ℕ) (l : LoadedOrder)
      → IsLoaded D d (find_options (by_id id none)) l
      → l.id ≡ id
  loaded_id d id l found =
      ap (λ (x : LoadedOrder). x.id) found.loaded
      ∙ eq_of_== found.row.id id (let m = found.met in ground arith)

  pub Created-Placed :
      (d s : D.Db) (c : Transaction D) (o : LoadedOrder)
      → D.start d ≡ ok s
      → all_positive asked ≡ true
      → Created D user key asked (opened D d s) c o
      → Placed (D.view d) (D.view c.committed) user key asked o.id
  Created-Placed d s c o started v new =
      let (unused, fresh, saved, time) =
        laws.save_order-ok user key s new.after new.row new.inserted in
      let (placed, possible, nodup) =
        Filled-place D laws s user key asked (record (opened D d s) { working = new.after }) c
          new.row o v fresh saved time new.filled in
      let same = laws.start_lem d s started in
      record {
        row = new.row;
        named = sym (
            loaded_id new.filled.after_products new.row.id o (
              laws.find_one-some (find_options (by_id new.row.id none)) new.filled.after_products o
                new.filled.reloaded));
        of_user = fresh.of_user;
        of_key = fresh.of_key;
        is_created = fresh.is_created;
        fresh = ap (λ (t : Tables). t.orders new.row.id) (sym same) ∙ fresh.fresh;
        placed = placed ∙ ap (place new.row asked) same;
        possible = subst (CanPlace asked) same possible;
        no_duplicates = nodup;
      }

module _ (D : Database) (A : Amqp) (laws : Laws D) (moment user key : ℕ) (asked : List OrderItemDto)
    (w : World D A) where
  -- Whatever a call returns or throws, on a body with positive quantities: the world is as it was, or
  -- the tables have one new order of the user, filled and taken from stock as `place` describes it,
  -- every product of it had enough, and no product stands in it twice.
  pub create_order_all_or_nothing :
      all_positive asked ≡ true
      → let (r, w') = create_order D A moment user asked key w in
        (w' ≡ w) ⊎ ((id : ℕ) × Placed (D.view w.db) (D.view w'.db) user key asked id)
  create_order_all_or_nothing v = elim (create_order-cases D A moment user key asked w) [
    | inl unchanged ↦ inl unchanged.same
    | inr changed ↦ inr (
      changed.order.id,
      subst (λ (d : D.Db). Placed (D.view w.db) (D.view d) user key asked changed.order.id)
          (sym changed.stored)
          (Created-Placed D laws user key asked w.db changed.begun changed.final changed.order
            changed.starts v changed.creation),
    )
  ]

  -- A key that the user has used before is not used again: the call changes nothing and sends
  -- nothing, and what it returns is the order of that key, with the items that the tables have.
  pub create_order_repeated :
      HasKey D (D.view w.db) user key
      → let (r, w') = create_order D A moment user asked key w in
        (w' ≡ w)
        × ((o : LoadedOrder) → r ≡ ok o → IsLoaded D w.db (find_options (by_key user key)) o)
  create_order_repeated (old, stored, u, k) =
      elim (create_order-cases D A moment user key asked w) [
        | inl unchanged ↦ (
          unchanged.same,
          λ o e.
              let (s, _, rep) = unchanged.returned o e in
              laws.find_one_or_fail-ok (find_options (by_key user key)) w.db o rep.recovered,
        )
        | inr changed ↦ absurd (
            (laws.save_order-ok user key changed.begun changed.creation.after changed.creation.row
                changed.creation.inserted).0
              (subst (λ (t : Tables). HasKey D t user key)
                (sym (laws.start_lem w.db changed.begun changed.starts)) (old, stored, u, k)))
      ]

  -- With a new key a call that returns has placed its order, and the last message in the channel is
  -- the one that announces it, on its first attempt.
  pub create_order_new :
      (o : LoadedOrder)
      → RabbitMq.Laws A
      → all_positive asked ≡ true
      → (¬ HasKey D (D.view w.db) user key)
      → (create_order D A moment user asked key w).0 ≡ ok o
      → let w' = (create_order D A moment user asked key w).1 in
        Placed (D.view w.db) (D.view w'.db) user key asked o.id
        × ((ch : A.Channel) × (ch' : A.Channel) × (w.rabbitmq ≡ some ch)
            × (w'.rabbitmq ≡ some ch')
            × (A.published ch'
                ≡ A.published ch ++ ("orders.process", json (new_message moment o.id o.id)) ∷ []))
  create_order_new o amqp v absent h = elim (create_order-cases D A moment user key asked w) [
    | inl unchanged ↦
        let (s, started, rep) = unchanged.returned o h in
        absurd (
          absent (
            subst (λ (t : Tables). HasKey D t user key) (laws.start_lem w.db s started)
              (laws.save_order-violation user key s
                (rep.refused ∙ ap err (unique_violation_of rep.error rep.violated)))))
    | inr changed ↦ ended changed changed.announcement
  ]
    where
      out : Result LoadedOrder × World D A
      out = create_order D A moment user asked key w

      ended :
          (changed : Changed D A moment user key asked w out)
          → Announced D A moment user key asked w changed.order out
          → Placed (D.view w.db) (D.view out.1.db) user key asked o.id
            × ((ch : A.Channel) × (ch' : A.Channel) × (w.rabbitmq ≡ some ch)
                × (out.1.rabbitmq ≡ some ch')
                × (A.published ch'
                    ≡ A.published ch
                      ++ ("orders.process", json (new_message moment o.id o.id)) ∷ []))
      ended changed (inr (x, e, same)) = absurd (ground arith)
      ended changed (inl (e, (ch, ch', b, f, g, sent))) =
          let same_order : changed.order ≡ o = ground arith in
          (
            subst (λ (l : LoadedOrder). Placed (D.view w.db) (D.view out.1.db) user key asked l.id)
                same_order
                (subst
                  (λ (d : D.Db). Placed (D.view w.db) (D.view d) user key asked changed.order.id)
                  (sym changed.stored)
                  (Created-Placed D laws user key asked w.db changed.begun changed.final
                    changed.order changed.starts v changed.creation)),
            (
              ch,
              ch',
              f,
              g,
              subst
                  (λ (l : LoadedOrder).
                    A.published ch'
                    ≡ A.published ch
                      ++ ("orders.process", json (new_message moment l.id l.id)) ∷ [])
                  same_order
                  (amqp.send_lem "orders.process"
                    (json (new_message moment changed.order.id changed.order.id))
                    (record { persistent = true; message_id = changed.order.id }) ch ch' b sent).0,
            ),
          )
