-- ===== src/Database/Memory/Lawful.antt =====
-- The database in memory keeps the contract: its writes, and the whole.
use nodejs_pro_task.Base.{
  ℕ, String, str_eq, ◌≡◌, refl, ◌∙◌, sym, subst, ap, ◌≢◌, ◌⊎◌, inl, inr, Bool, true, false, none,
  List, [], ◌∷◌, ◌++◌, ◌==◌, length, if◌then◌else◌, Bool-cases, Option-cases, arith, distinct,
  contains, map,
}
use nodejs_pro_task.Errors.{driver, Result, ok, err, Result-cases, ok_injective}
use nodejs_pro_task.Schema.{Product, Order, OrderStatus, ProcessedMessage}
use nodejs_pro_task.Database.Contract.{
  Laws, HasKey, with_items, with_products, with_processed, with_update, updated_row,
  unique_violation, Committed, RolledBack,
}
use nodejs_pro_task.Database.Queries.{NewItem, product_for}
use nodejs_pro_task.Database.Memory.Products.{pick}
use nodejs_pro_task.Database.Memory.{
  Store, tables, processed_for, has_key, save_order, update_order, update_row, save_items,
  save_products, insert_processed, transaction, memory, user_for, lock_products,
}
use nodejs_pro_task.Database.Memory.Rows.{
  Row, order_at, item_at, find_row, amend, at-amend, put_all, all_known, order_at-put_all,
  item_at-put_all,
}
use nodejs_pro_task.Database.Memory.Products.{
  stamped, distinct-pick, product_for-pick, product_for-stamped, product_for-id,
}
use nodejs_pro_task.Database.Memory.Proofs.{
  saved_order, order_at-id, found_one, found_one_or_fail, found_none, HasKey-find_row,
}

saved_products :
    (ps : List Product) (s s' : Store)
    → save_products ps s ≡ ok s'
    → (tables s' ≡ with_products memory (tables s) s.clock ps) × (s'.clock ≡ s.clock)
unfolding save_products
saved_products ps s s' h =
    let store : record s { products = stamped s.clock ps ++ s.products } ≡ s' = ground arith in
    (
      subst (λ (t : Store). tables t ≡ with_products memory (tables s) s.clock ps) store
          (λ i. record (tables s) {
            products = λ j. product_for-stamped j s.clock ps s.products i;
          }),
      ground arith,
    )

saved_items :
    (is : List NewItem) (s s' : Store)
    → save_items is s ≡ ok s'
    → (tables s' ≡ with_items memory (tables s) s.clock is) × (s'.clock ≡ s.clock)
unfolding save_items
saved_items is s s' h = elim (Bool-cases (all_known is s.rows)) [
  | inr n ↦ absurd (ground arith)
  | inl known ↦
      let store : record s { rows = put_all s.clock is s.rows } ≡ s' = ground arith in
      (
        subst (λ (t : Store). tables t ≡ with_items memory (tables s) s.clock is) store
            (λ i. record (tables s) {
              orders = λ j. order_at-put_all s.clock j is s.rows i;
              order_items = λ o j. item_at-put_all s.clock o j is s.rows known i;
            }),
        ground arith,
      )
]

inserted_processed :
    (i : ℕ) (h : String) (s s' : Store)
    → insert_processed i h s ≡ ok s'
    → ((tables s).processed_messages i h ≡ none)
      × ((m : ProcessedMessage) × (m.message_id ≡ i)
          × (m.handler ≡ h)
          × (tables s' ≡ with_processed memory (tables s) m))
unfolding insert_processed
inserted_processed i h s s' e = elim (Option-cases (processed_for i h s.processed)) [
  | inr (m, f) ↦ absurd (ground arith)
  | inl f ↦
      let m : ProcessedMessage = record {
        id = length s.processed;
        message_id = i;
        handler = h;
        processed_at = s.clock;
      } in
      let store : record s { processed = m ∷ s.processed } ≡ s' = ground arith in
      (f, (m, refl, refl, ap tables (sym store)))
]

updated_order :
    (id : ℕ) (status : OrderStatus) (processed : ℕ) (s s' : Store)
    → update_order id status processed s ≡ ok s'
    → tables s' ≡ with_update memory (tables s) id status processed s.clock
unfolding update_order
updated_order id status processed s s' h =
    let store : record s { rows = amend id (update_row status processed s.clock) s.rows } ≡ s' =
      ground arith in
    subst (λ (t : Store). tables t ≡ with_update memory (tables s) id status processed s.clock)
      store
      (λ i. record (tables s) {
        orders = λ j. same_order j i;
        order_items = λ o j. same_item o j i;
      })
  where
    row : Row → Row
    row = update_row status processed s.clock

    same_order :
        (j : ℕ)
        → order_at j (amend id row s.rows) ≡ (
            if j == id
            then updated_row memory status processed s.clock (order_at j s.rows)
            else order_at j s.rows)
    same_order j = ground (arith, at-amend j id row s.rows)

    same_item : (o j : ℕ) → item_at o j (amend id row s.rows) ≡ item_at o j s.rows
    same_item o j = ground (arith, at-amend o id row s.rows)

transacted :
    (f : Store → Result Bool × Store) (s : Store)
    → Committed memory f s (transaction f s) ⊎ RolledBack memory s (transaction f s)
unfolding transaction
transacted f s = elim (Result-cases (f s).0) [
  | inl (b, e) ↦ inl (s, b, refl, e, ground arith, ground arith)
  | inr (x, e) ↦ inr (x, ground arith, ground arith)
]

-- Whether a result is the error of a violated foreign key.
is_dangling : Result (Order × Store) → Bool
is_dangling (err (driver code)) = str_eq code "23503"
is_dangling _ = false

violated_key :
    (user key : ℕ) (s : Store)
    → save_order user key s ≡ err unique_violation
    → HasKey memory (tables s) user key
unfolding save_order is_dangling
violated_key user key s h = elim (Option-cases (find_row (has_key user key) s.rows)) [
  | inl e ↦ elim (Option-cases (user_for user s.users)) [
    | inl f ↦
        let dangles : save_order user key s ≡ err (driver "23503") = ground arith in
        let clash : true ≡ false = ap is_dangling (sym dangles ∙ h) in absurd (ground arith)
    | inr (u, f) ↦ absurd (ground arith)
  ]
  | inr ((j, r), e) ↦ HasKey-find_row user key s j r e
]

violated_message :
    (i : ℕ) (h : String) (s : Store)
    → insert_processed i h s ≡ err unique_violation
    → processed_for i h s.processed ≢ none
unfolding insert_processed
violated_message i h s e absent = ground arith

picked :
    (ids : List ℕ) (s : Store) (ps : List Product)
    → lock_products ids s ≡ ok ps
    → pick ids s.products ≡ ps
picked [] s ps h = absurd cc
picked (i ∷ is) s ps h = ok_injective h

-- The calls that succeed have done what the contract says.
pub memory-Laws : Laws memory
memory-Laws = record {
  order_id = λ s j o h. order_at-id j o s.rows h;
  product_id = λ s j p h. product_for-id j p s.products h;
  start_lem = λ d w h. ap tables (sym (ok_injective h));
  commit_lem = λ w d h. ap tables (sym (ok_injective h));
  save_order-ok = saved_order;
  save_order-violation = violated_key;
  find_one-some = found_one;
  find_one-none = found_none;
  find_one_or_fail-ok = found_one_or_fail;
  lock_products-ok = λ ids s ps h.
      subst
        (λ (qs : List Product).
          (distinct (map (λ p. p.id) qs) ≡ true)
          × ((j : ℕ)
              → product_for j qs ≡ (if contains ids j then product_for j s.products else none)))
        (picked ids s ps h) (distinct-pick ids s.products, λ j. product_for-pick j ids s.products);
  find_product-ok = λ j s r h. sym (ok_injective h);
  save_products-ok = λ ps s s' _ h. saved_products ps s s' h;
  save_items-ok = λ is s s' _ h. saved_items is s s' h;
  insert_processed-ok = inserted_processed;
  insert_processed-violation = violated_message;
  update_order-ok = updated_order;
  transaction_lem = transacted;
}
