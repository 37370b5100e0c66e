-- ===== src/Seed/Outcome.antt =====
-- What src/seed/index.ts leaves: all or nothing, and nothing new when it is run again.
use nodejs_pro_task.Base.{
  Among, ℕ, ◌≡◌, refl, sym, ◌∙◌, subst, ◌⊎◌, inl, inr, arith, List, [], ◌∷◌, ◌++◌, map,
}
use nodejs_pro_task.Base.Int.{pos}
use nodejs_pro_task.Errors.{ok}
use nodejs_pro_task.Exec.{bind_ok}
use nodejs_pro_task.Schema.{user, admin, Product, Order, created, OrderItem}
use nodejs_pro_task.Database.Queries.{NewItem, inserted_item}
use nodejs_pro_task.Seed.{
  Rows, Store, ProductData, admin_email, admin_pass, user_email, user_pass, product_data, asking,
  saving, unless_any, create_items, ensure_user, ensure_products, ensure_order, ensure_items,
  seed_rows,
}
use nodejs_pro_task.Seed.Contract.{IsOpen, Laws}
use nodejs_pro_task.Seed.Repeated.{HasProducts, Filled, Seeded}
use nodejs_pro_task.Seed.Ensured.{
  Grows, Grows-refl, Grows-trans, saved, found_or_made, ensures_user, ensures_products,
}

abbrev HasItem : Rows → ℕ → Type 0
HasItem t order = (i : OrderItem) × Among i t.items × (i.order_id ≡ order)

-- At most this order is new.
abbrev OrderOutcome : Rows → Rows → ℕ → Order → Type 0
OrderOutcome t t' id o =
    (Among o t'.orders × IsOpen id o)
    × Grows t t'
    × (t.users ≡ t'.users)
    × (t.items ≡ t'.items)
    × ((x : Order) → Among x t'.orders → (x ≡ o) ⊎ Among x t.orders)
    × (t.products ≡ t'.products)

-- The order has an item, and only items are new.
abbrev ItemsOutcome : Rows → Rows → Order → Type 0
ItemsOutcome t t' o =
    HasItem t' o.id
    × Grows t t'
    × (t.users ≡ t'.users)
    × (t.orders ≡ t'.orders)
    × (t.products ≡ t'.products)

products_kept :
    (ps : List ProductData) {t t' : Rows} → Grows t t' → HasProducts ps t → HasProducts ps t'
products_kept [] g h = tt
products_kept (p ∷ ps) g ((q, there, titled), h) =
    ((q, g.products q there, titled), products_kept ps g h)

abbrev first_item : Order → Product → NewItem
first_item o p = record {
  order_id = o.id;
  product_id = p.id;
  qty = pos 1;
  purchase_price = p.price;
}

abbrev first_items : Order → Product → Product → List NewItem
first_items o p q =
    first_item o p
    ∷ record { order_id = o.id; product_id = q.id; qty = pos 2; purchase_price = q.price }
    ∷ []

more_items : (t : Rows) (new : List OrderItem) → Grows t (record t { items = new ++ t.items })
more_items t new = record {
  users = λ x k. k;
  products = λ x k. k;
  orders = λ x k. k;
  items = λ x k. behind x new k;
}
  where
    behind : (x : OrderItem) (is : List OrderItem) → Among x t.items → Among x (is ++ t.items)
    behind x [] k = k
    behind x (i ∷ is) k = inr (behind x is k)

module _ (S : Store) (laws : Laws S) where
  open S use {Db, view}

  pub ensures_order :
      (key id : ℕ) (d d' : Db) (o : Order)
      → ensure_order S key id d ≡ (ok o, d')
      → OrderOutcome (view d) (view d') id o
  unfolding ensure_order
  ensures_order key id d d' o h =
      elim (found_or_made S (S.find_order id created) (saving S (S.save_order id key)) d d' o
        (IsOpen id) (view d).orders (laws.find_order-ok id d) h) [
          | inl (same, found) ↦
              subst (λ x. OrderOutcome (view d) (view x) id o) same
                (found, Grows-refl (view d), refl, refl, (λ x k. inr k), refl)
          | inr made ↦
              let (is_open, new) =
                laws.save_order-ok id key d d' o (saved S (S.save_order id key) d d' o made) in
              subst (λ t. OrderOutcome (view d) t id o) (sym new)
                (
                  (inl refl, is_open),
                  record {
                    users = λ x k. k;
                    products = λ x k. k;
                    orders = λ x k. inr k;
                    items = λ x k. k;
                  },
                  refl,
                  refl,
                  λ x k. k,
                  refl,
                )
        ]

  creates_items :
      (o : Order) (qs : List Product) (d d' : Db)
      → create_items S o qs d ≡ (ok tt, d')
      → ItemsOutcome (view d) (view d') o
  unfolding create_items
  creates_items o [] d d' h = absurd (ground arith)
  creates_items o (p ∷ []) d d' h = absurd (ground arith)
  creates_items o (p ∷ q ∷ qs) d d' h =
      let saves : S.save_items (first_items o p q) d ≡ ok d' = ground arith in
      let (moment, new) = laws.save_items-ok (first_items o p q) d d' saves in
      subst (λ t. ItemsOutcome (view d) t o) (sym new)
        (
          (inserted_item moment (first_item o p), inl refl, refl),
          more_items (view d) (map (inserted_item moment) (first_items o p q)),
          refl,
          refl,
          refl,
        )

  pub ensures_items :
      (o : Order) (qs : List Product) (d d' : Db)
      → ensure_items S o qs d ≡ (ok tt, d')
      → ItemsOutcome (view d) (view d') o
  unfolding ensure_items
  ensures_items o qs d d' h =
      let (is, d₁, asked, rest) =
        bind_ok (asking S (S.find_items o.id)) (λ is. unless_any S is (create_items S o qs)) d d' tt
          h in
      subst (λ x. ItemsOutcome (view x) (view d') o) (sym (λ i. (asked i).1))
        (after is d₁
          (λ i there.
            subst (λ x. HasItem (view x) o.id) (λ j. (asked j).1)
              (let (stored, of_order) =
                  (laws.find_items-ok o.id d is i (λ j. (asked j).0)).0 there in
                (i, stored, of_order)))
          rest)
    where
      after :
          (is : List OrderItem) (d₁ : Db)
          → ((i : OrderItem) → Among i is → HasItem (view d₁) o.id)
          → unless_any S is (create_items S o qs) d₁ ≡ (ok tt, d')
          → ItemsOutcome (view d₁) (view d') o
      after [] d₁ found k = creates_items o qs d₁ d' k
      after (i ∷ is) d₁ found k =
          subst (λ x. ItemsOutcome (view d₁) (view x) o) (λ i. (k i).1)
            (found i (inl refl), Grows-refl (view d₁), refl, refl, refl)

  -- The block that returns has left everything.
  pub seeds :
      (salt salt' key : ℕ) (d d' : Db)
      → Filled (view d)
      → seed_rows S salt salt' key d ≡ (ok tt, d')
      → Seeded (view d')
  unfolding seed_rows
  seeds salt salt' key d d' filled h =
      let (a, d₁, h₁, r₁) = bind_ok (ensure_user S salt admin_email admin_pass admin) _ d d' tt h in
      let (u, d₂, h₂, r₂) = bind_ok (ensure_user S salt' user_email user_pass user) _ d₁ d' tt r₁ in
      let (qs, d₃, h₃, r₃) = bind_ok (ensure_products S product_data) _ d₂ d' tt r₂ in
      let (o, d₄, h₄, r₄) =
        bind_ok (ensure_order S key u.id) (λ o. ensure_items S o qs) d₃ d' tt r₃ in
      let ((admin_there, is_admin), g₁, (orders₁, items₁)) =
        ensures_user S laws salt admin_email admin_pass admin d d₁ a h₁ in
      let ((user_there, is_user), g₂, (orders₂, items₂)) =
        ensures_user S laws salt' user_email user_pass user d₁ d₂ u h₂ in
      let (have, g₃, (orders₃, items₃)) = ensures_products S laws product_data d₂ d₃ qs h₃ in
      let ((order_there, is_open), g₄, users₄, items₄, at_most, _) =
        ensures_order key u.id d₃ d₄ o h₄ in
      let (has_item, g₅, users₅, orders₅, _) = ensures_items o qs d₄ d' r₄ in
      let later : Grows (view d₃) (view d') = Grows-trans g₄ g₅ in
      let all : Grows (view d) (view d') = Grows-trans g₁ (Grows-trans g₂ (Grows-trans g₃ later)) in
      let user_stays = later.users u (g₃.users u user_there) in
      record {
        has_admin = (a, later.users a (g₃.users a (g₂.users a admin_there)), is_admin);
        has_user = (u, user_stays, is_user);
        has_products = products_kept product_data later have;
        has_order = λ v there named.
            let same = laws.unique_email d' u v user_stays there (is_user ∙ sym named) in
            (o, g₅.orders o order_there, subst (λ x. IsOpen x.id o) same is_open);
        filled = λ x there unprocessed.
            elim (at_most x (subst (λ l. Among x l) (sym orders₅) there)) [
              | inl same ↦ subst (λ y. HasItem (view d') y.id) (sym same) has_item
              | inr old ↦
                  let before = subst (λ l. Among x l) (sym (orders₁ ∙ orders₂ ∙ orders₃)) old in
                  let (i, stored, of_order) = filled x before unprocessed in
                  (i, all.items i stored, of_order)
            ];
      }
