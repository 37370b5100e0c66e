-- ===== src/Orders/Service/Refinement.antt =====
-- The transaction of `createOrder` refines `place` (src/orders/orders.service.ts).
use nodejs_pro_task.Base.{
  ℕ, ◌≡◌, sym, ap, ◌∙◌, ◌≢◌, inl, inr, true, Option, none, some, List, [], ◌∷◌, map, length,
  length-map, contains, distinct, Within, Within-full, ◌==◌, if◌then◌else◌, Bool-cases,
  Option-cases, arith, eq_of_==,
}
use nodejs_pro_task.Base.Int.{ℤ, ◌-ℤ◌, ◌≤ℤ◌, ltb_ℤ, pos, int_laws}
use nodejs_pro_task.Errors.{ok}
use nodejs_pro_task.Schema.{Product, Order, OrderItem, Tables}
use nodejs_pro_task.Database.{Database}
use nodejs_pro_task.Database.Contract.{Laws, IsNewOrder, with_order, with_items, with_products}
use nodejs_pro_task.Database.Queries.{
  NewItem, LoadedOrder, product_for, new_item_for, inserted_item,
}
use nodejs_pro_task.UnitOfWork.{Transaction}
use nodejs_pro_task.Orders.Service.Reservation.{OrderItemDto, asked_qty, reserve, all_positive}
use nodejs_pro_task.Orders.Service.Reserved.{
  ids_of, asked_qty-contains, asked_qty-none, product_for-reserve, new_item_for-reserve,
  reserve-enough,
}
use nodejs_pro_task.Orders.Service.Steps.{Filled}
use nodejs_pro_task.Orders.Service.Placement.{place, CanPlace, left_of, item_of}

abbrev pub keys : List Product → List ℕ
keys ps = map (λ p. p.id) ps

pub product_for_of_contains :
    (j : ℕ) (ps : List Product)
    → contains (keys ps) j ≡ true
    → (p : Product) × (product_for j ps ≡ some p)
product_for_of_contains j [] h = absurd (ground arith)
product_for_of_contains j (p ∷ ps) h = elim (Bool-cases (p.id == j)) [
  | inl hit ↦ (p, ground arith)
  | inr miss ↦ let (q, e) = product_for_of_contains j ps (ground arith) in (q, ground arith)
]

qty_positive :
    (j : ℕ) (asked : List OrderItemDto) (q : ℤ)
    → all_positive asked ≡ true
    → asked_qty j asked ≡ some q
    → ltb_ℤ (pos 0) q ≡ true
unfolding asked_qty
qty_positive j [] q v h = absurd (ground arith)
qty_positive j (i ∷ is) q v h = elim (Option-cases (asked_qty j is)) [
  | inl e ↦ ground arith
  | inr (later, e) ↦ ground (arith, qty_positive j is later (ground arith) e)
]

sub_ne : (a q : ℤ) → ltb_ℤ (pos 0) q ≡ true → (a -ℤ q) ≢ a
sub_ne a q h e = grind (int_laws, e)

-- The facts about one run of the loop over the locked products.
module _ (t : Tables) (row : Order) (asked : List OrderItemDto) (ps : List Product)
    (rows : List NewItem) (left : List Product)
    (key : (j : ℕ) (p : Product) → t.products j ≡ some p → p.id ≡ j)
    (locked : (j : ℕ)
      → product_for j ps ≡ (if contains (ids_of asked) j then t.products j else none))
    (looped : reserve row.id asked ps ≡ ok (rows, left)) where
  pub keys-Within : Within (keys ps) (ids_of asked)
  keys-Within a h =
      let (p, e) = product_for_of_contains a ps h in
      elim (Bool-cases (contains (ids_of asked) a)) [
        | inl within ↦ within
        | inr out ↦ absurd (ground (arith, locked a))
      ]

  all_found :
      distinct (keys ps) ≡ true
      → (length ps == length asked) ≡ true
      → (distinct (ids_of asked) ≡ true) × CanPlace asked t
  all_found d n =
      let (d', full) = Within-full (keys ps) (ids_of asked) d keys-Within (
        omega (
          arith,
          length-map (λ (p : Product). p.id) ps,
          length-map (λ (i : OrderItemDto). i.id) asked,
          eq_of_== _ _ n,
        )) in
      (d', λ j q h. found_each full j q h)
    where
      found_each :
          Within (ids_of asked) (keys ps)
          → (j : ℕ) (q : ℤ) → asked_qty j asked ≡ some q
          → (p : Product) × (t.products j ≡ some p) × (q ≤ℤ p.stock)
      found_each full j q h =
          let (p, e) = product_for_of_contains j ps (full j (asked_qty-contains j asked q h)) in
          let (q', e', enough) = reserve-enough row.id asked j p ps rows left looped e in
          let stored : t.products j ≡ some p =
            ground (arith, locked j, asked_qty-contains j asked q h) in
          (p, stored, ground (arith, key j p stored))

  products_placed :
      (j : ℕ)
      → (elim (product_for j left) [
        | none ↦ t.products j
        | some p ↦ some (record p { updated_at = row.created_at })
      ])
        ≡ left_of row (asked_qty j asked) (t.products j)
  products_placed j =
      let made = product_for-reserve row.id asked j ps rows left looped in
      elim (Option-cases (asked_qty j asked)) [
        | inl e ↦ ground (arith, locked j, asked_qty-none j asked e, made)
        | inr (q, e) ↦ elim (Option-cases (t.products j)) [
          | inl m ↦ ground (arith, locked j, asked_qty-contains j asked q e, made)
          | inr (p, m) ↦ ground (arith, locked j, asked_qty-contains j asked q e, made, key j p m)
        ]
      ]

  items_placed :
      (o j : ℕ) (old : Option OrderItem)
      → ((row.id == o) ≡ true → old ≡ none)
      → (elim (new_item_for o j rows) [
        | none ↦ old
        | some i ↦ some (inserted_item row.created_at i)
      ])
        ≡ (if row.id == o then item_of row (asked_qty j asked) (t.products j) else old)
  items_placed o j old fresh =
      let made = new_item_for-reserve row.id asked o j ps rows left looped in
      elim (Option-cases (asked_qty j asked)) [
        | inl e ↦ ground (arith, locked j, asked_qty-none j asked e, made)
        | inr (q, e) ↦ elim (Option-cases (t.products j)) [
          | inl m ↦ ground (arith, locked j, asked_qty-contains j asked q e, made)
          | inr (p, m) ↦ ground (arith, locked j, asked_qty-contains j asked q e, made, key j p m)
        ]
      ]

  pub items_new :
      (o j : ℕ) (i : NewItem)
      → new_item_for o j rows ≡ some i
      → (row.id ≡ o) × (t.products j ≢ none)
  items_new o j i h =
      let made = new_item_for-reserve row.id asked o j ps rows left looped in
      (ground arith, ground (arith, locked j))

  pub stock_changed :
      all_positive asked ≡ true
      → (j : ℕ) (p : Product) → product_for j left ≡ some p
      → (old : Product) × (t.products j ≡ some old) × (p.stock ≢ old.stock)
  stock_changed v j p h =
      let made = product_for-reserve row.id asked j ps rows left looped in
      elim (Option-cases (product_for j ps)) [
        | inl e ↦ absurd (ground arith)
        | inr (old, e) ↦ elim (Option-cases (asked_qty old.id asked)) [
          | inl f ↦ absurd (ground arith)
          | inr (q, f) ↦ (
            old,
            ground (arith, locked j),
            ground (arith, sub_ne old.stock q (qty_positive old.id asked q v f)),
          )
        ]
      ]

  tables_placed :
      (D : Database)
      → ((j : ℕ) → t.order_items row.id j ≡ none)
      → with_products D (with_items D (with_order D t row) row.created_at rows) row.created_at left
        ≡ place row asked t
  tables_placed D none_yet = λ i. record t {
    orders = λ j. if j == row.id then some row else t.orders j;
    products = λ j. products_placed j i;
    order_items = λ o j. items_placed o j (t.order_items o j) (old_none o j) i;
  }
    where
      old_none : (o j : ℕ) → (row.id == o) ≡ true → t.order_items o j ≡ none
      old_none o j h = rw (← eq_of_== row.id o h) (none_yet j)

module _ (D : Database) (laws : Laws D) (before : D.Db) (user idempotency_key : ℕ)
    (asked : List OrderItemDto) (c c' : Transaction D) (row : Order) (found : LoadedOrder) where
  -- The transaction that has filled a new order commits the tables that `place` describes.
  pub Filled-place :
      all_positive asked ≡ true
      → IsNewOrder D before user idempotency_key row
      → D.view c.working ≡ with_order D (D.view before) row
      → D.now c.working ≡ D.now before
      → Filled D c c' row.id asked found
      → (D.view c'.committed ≡ place row asked (D.view before))
        × CanPlace asked (D.view before)
        × (distinct (ids_of asked) ≡ true)
  Filled-place v new seen time steps =
      let t = D.view before in
      let lock = laws.lock_products-ok (ids_of asked) c.working steps.products steps.locked in
      let locked : (j : ℕ)
          → product_for j steps.products
            ≡ (if contains (ids_of asked) j then t.products j else none) =
        λ j.
          lock.1 j
          ∙ ap (λ (s : Tables). if contains (ids_of asked) j then s.products j else none) seen in
      let key = laws.product_id before in
      let loop =
        items_new t row asked steps.products steps.rows steps.reserved key locked steps.looped in
      let stored_items =
        laws.save_items-ok steps.rows c.working steps.after_items
          (λ o j i h. rw (seen, ← (loop o j i h).0) (new.no_items j)) steps.saved_items in
      let stored_products =
        laws.save_products-ok steps.reserved steps.after_items steps.after_products
          (λ j p h.
            rw (stored_items.0, seen)
              (stock_changed t row asked steps.products steps.rows steps.reserved key locked
                steps.looped v j p h))
          steps.saved_products in
      let moment : D.now steps.after_items ≡ row.created_at =
        stored_items.1 ∙ time ∙ sym new.made in
      let items_saved : D.view steps.after_items
          ≡ with_items D (with_order D t row) row.created_at steps.rows =
        stored_items.0 ∙ (λ i. with_items D (seen i) ((time ∙ sym new.made) i) steps.rows) in
      (
        ap (λ (x : Transaction D). D.view x.committed) steps.ends
            ∙ laws.commit_lem steps.after_products steps.stored steps.committed
            ∙ stored_products.0
            ∙ (λ i. with_products D (items_saved i) (moment i) steps.reserved)
            ∙ tables_placed t row asked steps.products steps.rows steps.reserved key locked
                steps.looped D new.no_items,
        (all_found t row asked steps.products steps.rows steps.reserved key locked steps.looped
            lock.0 steps.counted).1,
        (all_found t row asked steps.products steps.rows steps.reserved key locked steps.looped
            lock.0 steps.counted).0,
      )
