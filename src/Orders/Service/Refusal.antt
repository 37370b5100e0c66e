-- ===== src/Orders/Service/Refusal.antt =====
-- How `createOrder` refuses a request that cannot be placed (src/orders/orders.service.ts).
use nodejs_pro_task.Base.{
  ℕ, ◌≤◌, ◌≡◌, refl, sym, ap, subst, ◌∙◌, inl, inr, Bool, true, false, none, some, List, [], ◌∷◌,
  Option-cases, Bool-cases, length, ◌==◌, eq_of_==, contains, distinct, arith, if◌then◌else◌, ◌≢◌,
}
use nodejs_pro_task.Base.Int.{ℤ, pos, ltb_ℤ, sub_ℕ}
use nodejs_pro_task.Errors.{
  Exception, DomainError, domain, cannot_find_products, not_enough_items_in_stock, Result, ok, err,
}
use nodejs_pro_task.Schema.{Order, Product, Tables}
use nodejs_pro_task.Database.{Database}
use nodejs_pro_task.Database.Contract.{Laws, IsUp, HasKey, with_order}
use nodejs_pro_task.Database.Queries.{LoadedOrder, product_for}
use nodejs_pro_task.RabbitMq.{Amqp}
use nodejs_pro_task.UnitOfWork.{Transaction, transaction, settle}
use nodejs_pro_task.UnitOfWork.Outcome.{opened, async_dispose_finishes, transaction-start}
use nodejs_pro_task.Orders.Repository.{find_by_ids, add}
use nodejs_pro_task.Orders.Service.{World, fill_order, place_order, announce, create_order}
use nodejs_pro_task.Orders.Service.Reservation.{OrderItemDto, asked_qty}
use nodejs_pro_task.Orders.Service.Reserved.{ids_of-some, ids_of, asked_qty-none}
use nodejs_pro_task.Orders.Service.Placement.{CanPlace}
use nodejs_pro_task.Orders.Service.Possible.{contains_of_product_for}
use nodejs_pro_task.Orders.Service.Creation.{place_order-cases}
use nodejs_pro_task.Orders.Service.Counting.{missing, is_some, AllFit, reserve-cases, length-locked}

-- The error tells what is wrong with the request: how many of its products are not there, or one of
-- them that has less in stock than is asked for.
abbrev pub Reason : List OrderItemDto → Tables → DomainError → Type 0
Reason asked t (cannot_find_products n ids) =
    (n ≡ pos (missing (ids_of asked) t)) × (1 ≤ missing (ids_of asked) t) × (ids ≡ none)
Reason asked t (not_enough_items_in_stock id q stock) =
    (p : Product) × (t.products id ≡ some p)
    × (p.stock ≡ stock)
    × (asked_qty id asked ≡ some q)
    × (ltb_ℤ stock q ≡ true)
Reason asked t _ = ⊥

asked_qty-some :
    (j : ℕ) (asked : List OrderItemDto) (q : ℤ)
    → asked_qty j asked ≡ some q
    → contains (ids_of asked) j ≡ true
unfolding asked_qty
asked_qty-some j [] q h = absurd (ground arith)
asked_qty-some j (i ∷ is) q h = elim (Option-cases (asked_qty j is)) [
  | inl e ↦ ground arith
  | inr (later, e) ↦ ground (arith, asked_qty-some j is later e)
]

-- A request for nothing can be placed.
asks_some : (asked : List OrderItemDto) (t : Tables) → (¬ CanPlace asked t) → asked ≢ []
unfolding asked_qty
asks_some [] t cannot = absurd (cannot (λ j q h. absurd cc))
asks_some (i ∷ is) t cannot = λ h. cc

none_missing :
    (is : List ℕ) (t : Tables) (j : ℕ)
    → missing is t ≡ 0
    → contains is j ≡ true
    → is_some (t.products j) ≡ true
none_missing [] t j m h = absurd (ground arith)
none_missing (i ∷ is) t j m h = elim (Bool-cases (i == j)) [
  | inl here ↦ ap (λ k. is_some (t.products k)) (sym (eq_of_== i j here)) ∙ ground arith
  | inr later ↦ none_missing is t j (ground arith) (ground arith)
]

module _ (t : Tables) (asked : List OrderItemDto) (ps : List Product)
    (locked : (j : ℕ)
      → product_for j ps ≡ (if contains (ids_of asked) j then t.products j else none)) where
  each_asked :
      (j : ℕ) (p : Product) → product_for j ps ≡ some p → (q : ℤ) × (asked_qty p.id asked ≡ some q)
  each_asked j p h =
      let (_, same) = contains_of_product_for j ps p h in
      elim (Option-cases (asked_qty p.id asked)) [
        | inr found ↦ found
        | inl e ↦
            let no = asked_qty-none p.id asked e in
            let no' : contains (ids_of asked) j ≡ false =
              ap (contains (ids_of asked)) (sym same) ∙ no in
            absurd (ground (arith, locked j))
      ]

  can_place : missing (ids_of asked) t ≡ 0 → AllFit asked ps → CanPlace asked t
  can_place m fits j q e =
      let within = asked_qty-some j asked q e in
      let there = none_missing (ids_of asked) t j m within in
      elim (Option-cases (t.products j)) [
        | inl gone ↦ absurd (ground arith)
        | inr (p, stored) ↦
            let found : product_for j ps ≡ some p = ground (arith, locked j) in
            let (_, same) = contains_of_product_for j ps p found in
            (p, stored, fits j p q found (ap (λ i. asked_qty i asked) same ∙ e))
      ]

module _ (D : Database) (laws : Laws D) (up : IsUp D) (user key : ℕ) (asked : List OrderItemDto)
    (unique : distinct (ids_of asked) ≡ true) where
  -- The body of the transaction refuses what cannot be placed.
  fill_order_refuses :
      (before : D.Db) (row : Order) (c : Transaction D)
      → D.view c.working ≡ with_order D (D.view before) row
      → (¬ CanPlace asked (D.view before))
      → (e : DomainError) × ((fill_order D row.id asked c).0 ≡ err (domain e))
        × Reason asked (D.view before) e
  unfolding fill_order find_by_ids
  fill_order_refuses before row c seen cannot =
      let t = D.view before in
      let asks = ids_of-some asked (asks_some asked t cannot) in
      let (ps, e₁) = up.locks (ids_of asked) c.working asks in
      let lock = laws.lock_products-ok (ids_of asked) c.working ps e₁ in
      let locked : (j : ℕ)
          → product_for j ps ≡ (if contains (ids_of asked) j then t.products j else none) =
        λ j.
          lock.1 j
          ∙ ap (λ (s : Tables). if contains (ids_of asked) j then s.products j else none) seen in
      let counted = length-locked t asked ps locked lock.0 unique in
      elim (Bool-cases (length ps == length asked)) [
        | inr fewer ↦ (
          cannot_find_products (sub_ℕ (length asked) (length ps)) none,
          ground arith,
          (ground arith, ground arith, refl),
        )
        | inl all ↦
            let m : missing (ids_of asked) t ≡ 0 = ground arith in
            elim (reserve-cases row.id asked ps lock.0 (each_asked t asked ps locked)) [
              | inl fits ↦ absurd (cannot (can_place t asked ps locked m fits))
              | inr (p, q, l, refused) ↦ (
                not_enough_items_in_stock p.id q p.stock,
                ground arith,
                (p, ground (arith, locked p.id, l.among), refl, l.asks, l.short),
              )
            ]
      ]

  place_order_refuses :
      (d s : D.Db)
      → D.start d ≡ ok s
      → (¬ HasKey D (D.view d) user key)
      → (D.view d).users user ≢ none
      → (¬ CanPlace asked (D.view d))
      → (e : DomainError) × ((place_order D user asked key (opened D d s)).0 ≡ err (domain e))
        × Reason asked (D.view d) e
  unfolding place_order add
  place_order_refuses d s started absent known cannot =
      let same = laws.start_lem d s started in
      let unused : ¬ HasKey D (D.view s) user key =
        λ h. absent (subst (λ (t : Tables). HasKey D t user key) same h) in
      let (row, w, saves) =
        up.saves_order user key s unused
          (λ e. known (ap (λ (t : Tables). t.users user) (sym same) ∙ e)) in
      let (_, _, saved, _) = laws.save_order-ok user key s w row saves in
      let (e, f, reason) =
        fill_order_refuses s row (record (opened D d s) { working = w }) saved
          (λ can. cannot (subst (CanPlace asked) same can)) in
      (e, ground arith, subst (λ t. Reason asked t e) same reason)

  -- A body that throws has committed nothing.
  nothing_committed :
      (c : Transaction D) (x : Exception)
      → (place_order D user asked key c).0 ≡ err x
      → c.finished ≡ false
      → (place_order D user asked key c).1.committed ≡ c.committed
  nothing_committed c x h open_tx = elim (place_order-cases D user key asked c open_tx) [
    | inl (e, f, same) ↦ same
    | inr (inl (o, f, found)) ↦ absurd (ground arith)
    | inr (inr (o, f, made)) ↦ absurd (ground arith)
  ]

  -- On a database that is up, a request of a user who is there for distinct products that cannot
  -- be placed, with a key that the user has not used, is refused with an error of the domain and
  -- the world stays as it was. The error is CannotFindProducts with the number of the products
  -- that are not there, which is at least one, and without their identifiers, or
  -- NotEnoughItemsInStock with a product, its stock and the quantity asked for, which is more.
  pub create_order_refuses :
      (A : Amqp) (moment : ℕ) (w : World D A)
      → (¬ HasKey D (D.view w.db) user key)
      → (D.view w.db).users user ≢ none
      → (¬ CanPlace asked (D.view w.db))
      → (e : DomainError) × (create_order D A moment user asked key w ≡ (err (domain e), w))
        × Reason asked (D.view w.db) e
  unfolding create_order announce
  create_order_refuses A moment w absent known cannot =
      let (s, started) = up.starts w.db in
      let (e, refused, reason) = place_order_refuses w.db s started absent known cannot in
      let ends = transaction-start D (place_order D user asked key) w.db s started in
      let c = (place_order D user asked key (opened D w.db s)).1 in
      let (released, _, _, _) = async_dispose_finishes D c up in
      let kept : c.committed ≡ w.db = nothing_committed (opened D w.db s) (domain e) refused refl in
      let result : transaction D (place_order D user asked key) w.db ≡ (err (domain e), w.db) =
        ends ∙ (λ i. (settle D (refused i) (released i), kept i)) in
      (
        e,
        ap
            (λ (r : Result (LoadedOrder × Bool) × D.Db).
              announce D A moment r.0 (record w { db = r.1 }))
            result,
        reason,
      )
