-- ===== src/Database/Contract.antt =====
-- What the code relies on in TypeORM and PostgreSQL, which are not code of the repository: `Laws` says
-- what a call that succeeds has done, and `IsUp` that a call fails only for the reason that the
-- constraints of the schema (src/migrations) give. A failed statement has no effect of its own.
use nodejs_pro_task.Base.{
  ℕ, String, ◌≡◌, ◌≢◌, ◌⊎◌, str_eq, Bool, true, false, ◌&&◌, Option, none, some, List, [], ◌==◌,
  map, contains, distinct, if◌then◌else◌,
}
use nodejs_pro_task.Errors.{Exception, driver, Result, ok, err}
use nodejs_pro_task.Schema.{
  Product, Order, OrderStatus, created, OrderItem, ProcessedMessage, Tables,
}
use nodejs_pro_task.Database.{Database}
use nodejs_pro_task.Database.Queries.{
  LoadedOrder, NewItem, FindOptions, load, meets, item_for, product_for, new_item_for,
  inserted_item,
}

-- PostgreSQL's code of a violated unique constraint.
abbrev pub unique_violation : Exception
unique_violation = driver "23505"

module _ (D : Database) where
  open D use {Db, view}

  -- `orders.user_id` and `orders.idempotency_key` of some row.
  abbrev pub HasKey : Tables → ℕ → ℕ → Type 0
  HasKey t user key =
      (o : Order) × (t.orders o.id ≡ some o) × (o.user_id ≡ user) × (o.idempotency_key ≡ key)

  -- What `findOne` has loaded: a row that meets the conditions, with its items.
  pub record IsLoaded (d : Db) (q : FindOptions) (l : LoadedOrder) : Type 0 where
    pub row : Order
    pub items : List OrderItem
    pub stored : (view d).orders row.id ≡ some row
    pub met : meets q row ≡ true
    pub each : (p : ℕ) → item_for p items ≡ (view d).order_items row.id p
    pub loaded : l ≡ load q row items

  -- Each product that is saved has a row, with another stock.
  abbrev pub ChangesStock : Tables → List Product → Type 0
  ChangesStock t ps =
      (j : ℕ) (p : Product)
      → product_for j ps ≡ some p
      → (old : Product) × (t.products j ≡ some old) × (p.stock ≢ old.stock)

  -- No item that is saved has a row yet.
  abbrev pub AreNew : Tables → List NewItem → Type 0
  AreNew t is = (o j : ℕ) (i : NewItem) → new_item_for o j is ≡ some i → t.order_items o j ≡ none

  abbrev pub with_products : Tables → ℕ → List Product → Tables
  with_products t moment ps = record t {
    products = λ j. elim (product_for j ps) [
      | none ↦ t.products j
      | some p ↦ some (record p { updated_at = moment })
    ];
  }

  abbrev pub with_items : Tables → ℕ → List NewItem → Tables
  with_items t moment is = record t {
    order_items = λ o j. elim (new_item_for o j is) [
      | none ↦ t.order_items o j
      | some i ↦ some (inserted_item moment i)
    ];
  }

  abbrev pub with_order : Tables → Order → Tables
  with_order t o = record t { orders = λ j. if j == o.id then some o else t.orders j }

  abbrev pub with_processed : Tables → ProcessedMessage → Tables
  with_processed t m = record t {
    processed_messages = λ i h.
        if (m.message_id == i) && str_eq m.handler h then some m else t.processed_messages i h;
  }

  -- The row of an order after `update`.
  abbrev pub updated_row : OrderStatus → ℕ → ℕ → Option Order → Option Order
  updated_row status processed moment none = none
  updated_row status processed moment (some o) =
      some (record o { status = status; processed_at = some processed; updated_at = moment })

  abbrev pub with_update : Tables → ℕ → OrderStatus → ℕ → ℕ → Tables
  with_update t id status processed moment = record t {
    orders = λ j. if j == id then updated_row status processed moment (t.orders j) else t.orders j;
  }

  -- How `DataSource.transaction` can end: what its callback returned is committed, or nothing is.
  abbrev pub Committed : (Db → Result Bool × Db) → Db → Result Bool × Db → Type 0
  Committed f d (r, d') =
      (s : Db) × (b : Bool) × (view s ≡ view d)
      × ((f s).0 ≡ ok b)
      × (r ≡ ok b)
      × (view d' ≡ view (f s).1)

  abbrev pub RolledBack : Db → Result Bool × Db → Type 0
  RolledBack d (r, d') = (e : Exception) × (r ≡ err e) × (view d' ≡ view d)

  -- The row of a new order: the columns that are given, and the defaults.
  pub record IsNewOrder (d : Db) (user key : ℕ) (o : Order) : Type 0 where
    pub fresh : (view d).orders o.id ≡ none
    pub no_items : (j : ℕ) → (view d).order_items o.id j ≡ none
    pub of_user : o.user_id ≡ user
    pub of_key : o.idempotency_key ≡ key
    pub is_created : o.status ≡ created
    pub made : o.created_at ≡ D.now d
    pub touched : o.updated_at ≡ D.now d
    pub unprocessed : o.processed_at ≡ none

  -- What a call that succeeds has done.
  pub record Laws : Type 0 where
    -- Primary keys.
    pub order_id : (d : Db) (j : ℕ) (o : Order) → (view d).orders j ≡ some o → o.id ≡ j
    pub product_id : (d : Db) (j : ℕ) (p : Product) → (view d).products j ≡ some p → p.id ≡ j
    -- A transaction begins with what is committed, and commits what it has written.
    pub start_lem : (d w : Db) → D.start d ≡ ok w → view w ≡ view d
    pub commit_lem : (w d : Db) → D.commit w ≡ ok d → view d ≡ view w
    pub save_order-ok :
        (user key : ℕ) (d d' : Db) (o : Order)
        → D.save_order user key d ≡ ok (o, d')
        → (¬ HasKey (view d) user key)
          × IsNewOrder d user key o
          × (view d' ≡ with_order (view d) o)
          × (D.now d' ≡ D.now d)
    pub save_order-violation :
        (user key : ℕ) (d : Db)
        → D.save_order user key d ≡ err unique_violation
        → HasKey (view d) user key
    pub find_one-some :
        (q : FindOptions) (d : Db) (l : LoadedOrder) → D.find_one q d ≡ ok (some l) → IsLoaded d q l
    pub find_one-none :
        (q : FindOptions) (d : Db) (o : Order)
        → D.find_one q d ≡ ok none
        → (view d).orders o.id ≡ some o
        → meets q o ≡ false
    pub find_one_or_fail-ok :
        (q : FindOptions) (d : Db) (l : LoadedOrder)
        → D.find_one_or_fail q d ≡ ok l
        → IsLoaded d q l
    pub lock_products-ok :
        (ids : List ℕ) (d : Db) (ps : List Product)
        → D.lock_products ids d ≡ ok ps
        → (distinct (map (λ p. p.id) ps) ≡ true)
          × ((j : ℕ) → product_for j ps ≡ (if contains ids j then (view d).products j else none))
    pub find_product-ok :
        (j : ℕ) (d : Db) (r : Option Product) → D.find_product j d ≡ ok r → r ≡ (view d).products j
    pub save_products-ok :
        (ps : List Product) (d d' : Db)
        → ChangesStock (view d) ps
        → D.save_products ps d ≡ ok d'
        → (view d' ≡ with_products (view d) (D.now d) ps) × (D.now d' ≡ D.now d)
    pub save_items-ok :
        (is : List NewItem) (d d' : Db)
        → AreNew (view d) is
        → D.save_items is d ≡ ok d'
        → (view d' ≡ with_items (view d) (D.now d) is) × (D.now d' ≡ D.now d)
    pub insert_processed-ok :
        (message : ℕ) (handler : String) (d d' : Db)
        → D.insert_processed message handler d ≡ ok d'
        → ((view d).processed_messages message handler ≡ none)
          × ((m : ProcessedMessage) × (m.message_id ≡ message)
              × (m.handler ≡ handler)
              × (view d' ≡ with_processed (view d) m))
    pub insert_processed-violation :
        (message : ℕ) (handler : String) (d : Db)
        → D.insert_processed message handler d ≡ err unique_violation
        → (view d).processed_messages message handler ≢ none
    pub update_order-ok :
        (id : ℕ) (status : OrderStatus) (processed : ℕ) (d d' : Db)
        → D.update_order id status processed d ≡ ok d'
        → view d' ≡ with_update (view d) id status processed (D.now d)
    pub transaction_lem :
        (f : Db → Result Bool × Db) (d : Db)
        → Committed f d (D.transaction f d) ⊎ RolledBack d (D.transaction f d)

  -- A database that is up: a call fails only for the reason that its constraints give.
  pub record IsUp : Type 0 where
    pub starts : (d : Db) → (w : Db) × (D.start d ≡ ok w)
    pub commits : (w : Db) → (d : Db) × (D.commit w ≡ ok d)
    pub rolls_back : (w : Db) → D.rollback w ≡ ok tt
    pub releases : (w : Db) → D.release w ≡ ok tt
    pub saves_order :
        (user key : ℕ) (d : Db)
        → (¬ HasKey (view d) user key)
        → (view d).users user ≢ none
        → (o : Order) × (d' : Db) × (D.save_order user key d ≡ ok (o, d'))
    pub refuses_order :
        (user key : ℕ) (d : Db)
        → HasKey (view d) user key
        → D.save_order user key d ≡ err unique_violation
    pub finds : (q : FindOptions) (d : Db) → (r : Option LoadedOrder) × (D.find_one q d ≡ ok r)
    pub finds_or_fails :
        (q : FindOptions) (d : Db) (o : Order)
        → (view d).orders o.id ≡ some o
        → meets q o ≡ true
        → (l : LoadedOrder) × (D.find_one_or_fail q d ≡ ok l)
    -- `IN ()` is no SQL.
    pub locks :
        (ids : List ℕ) (d : Db) → ids ≢ [] → (ps : List Product) × (D.lock_products ids d ≡ ok ps)
    pub saves_products :
        (ps : List Product) (d : Db)
        → ChangesStock (view d) ps
        → (d' : Db) × (D.save_products ps d ≡ ok d')
    pub saves_items :
        (is : List NewItem) (d : Db)
        → AreNew (view d) is
        → ((o j : ℕ) (i : NewItem)
            → new_item_for o j is ≡ some i
            → ((view d).orders o ≢ none) × ((view d).products j ≢ none))
        → (d' : Db) × (D.save_items is d ≡ ok d')
    pub inserts_processed :
        (message : ℕ) (handler : String) (d : Db)
        → (view d).processed_messages message handler ≡ none
        → (d' : Db) × (D.insert_processed message handler d ≡ ok d')
    pub refuses_processed :
        (message : ℕ) (handler : String) (d : Db)
        → (view d).processed_messages message handler ≢ none
        → D.insert_processed message handler d ≡ err unique_violation
    pub updates_order :
        (id : ℕ) (status : OrderStatus) (processed : ℕ) (d : Db)
        → (d' : Db) × (D.update_order id status processed d ≡ ok d')
    pub transacts :
        (f : Db → Result Bool × Db) (d : Db)
        → (s : Db) × (view s ≡ view d) × ((D.transaction f d).0 ≡ (f s).0)
