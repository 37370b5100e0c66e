-- ===== src/Seed/Repeated.antt =====
-- A database that was seeded, and the script (src/seed/index.ts) on it.
use nodejs_pro_task.Base.{
  Among, ℕ, String, ◌≡◌, refl, sym, ap, ◌∙◌, subst, inl, inr, arith, Option, none, some, List, [],
  ◌∷◌,
}
use nodejs_pro_task.Errors.{Result, ok, err, Result-cases}
use nodejs_pro_task.Exec.{Exec, pure, continue, ◌>>=◌}
use nodejs_pro_task.Schema.{User, UserRole, user, admin, Product, Order, created, OrderItem}
use nodejs_pro_task.Seed.{
  Rows, Store, ProductData, admin_email, user_email, product_data, asking, saving, unless_any,
  create_account, create_items, admin_pass, user_pass, ensure_user, ensure_product, ensure_products,
  ensure_order, ensure_items, seed_rows, or_else,
}
use nodejs_pro_task.Seed.Contract.{Finds, IsOpen, Laws}

abbrev pub HasUser : String → Rows → Type 0
HasUser email t = (u : User) × Among u t.users × (u.email ≡ email)

abbrev pub HasProducts : List ProductData → Rows → Type 0
HasProducts [] t = Unit
HasProducts (p ∷ ps) t =
    ((q : Product) × Among q t.products × (q.title ≡ p.title)) × HasProducts ps t

-- Every order that is not processed has an item.
abbrev pub Filled : Rows → Type 0
Filled t =
    (o : Order)
    → Among o t.orders
    → o.status ≡ created
    → (i : OrderItem) × Among i t.items × (i.order_id ≡ o.id)

-- Everything is there that the script looks for.
pub record Seeded (t : Rows) : Type 0 where
  pub has_admin : HasUser admin_email t
  pub has_user : HasUser user_email t
  pub has_products : HasProducts product_data t
  pub has_order :
      (u : User)
      → Among u t.users
      → u.email ≡ user_email
      → (o : Order) × Among o t.orders × IsOpen u.id o
  pub filled : Filled t

-- The call has changed nothing, and what it returns has the property.
abbrev pub OnlyReads : {D A : Type 0} → Exec D A → D → (A → Type 0) → Type 0
OnlyReads m d P = ((m d).1 ≡ d) × ((a : _) → (m d).0 ≡ ok a → P a)

module _ {D A B : Type 0} where
  only_reads_bind :
      (m : Exec D A) (f : A → Exec D B) (d : D) (P : A → Type 0) (Q : B → Type 0)
      → OnlyReads m d P
      → ((a : A) → P a → OnlyReads (f a) d Q)
      → OnlyReads (m >>= f) d Q
  only_reads_bind m f d P Q (same, holds) next = elim (Result-cases (m d).0) [
    | inl (a, e) ↦
        let (same', holds') = next a (holds a e) in
        let step : (m >>= f) d ≡ f a d = λ i. continue (e i) f (same i) in
        (ap (λ r. r.1) step ∙ same', λ b h. holds' b (sym (ap (λ r. r.0) step) ∙ h))
    | inr (x, e) ↦
        let step : (m >>= f) d ≡ (err x, d) = λ i. continue (e i) f (same i) in
        (ap (λ r. r.1) step, λ b h. absurd (ground arith))
  ]

module _ (S : Store) where
  open S use {Db, view}

  module _ {A : Type 0} (m : Exec Db A) (d : Db) (p : A → Type 0) (rows : List A) where
    returned_row :
        (r : Option A)
        → (a : A) × Among a rows × p a
        → Finds p rows r
        → OnlyReads (or_else S r m) d (λ b. Among b rows × p b)
    returned_row none (a, there, holds) absent = absurd (absent a there holds)
    returned_row (some b) there found =
        (refl, λ c e. let same : b ≡ c = cc in subst (λ x. Among x rows × p x) same found)

    -- A row that is there is found.
    finds_row :
        (q : Db → Result (Option A))
        → ((r : Option A) → q d ≡ ok r → Finds p rows r)
        → (a : A) × Among a rows × p a
        → OnlyReads (asking S q >>= λ r. or_else S r m) d (λ b. Among b rows × p b)
    finds_row q finds there =
        only_reads_bind (asking S q) (λ r. or_else S r m) d (Finds p rows) (λ b. Among b rows × p b)
          (refl, finds) (λ r. returned_row r there)

  module _ (laws : Laws S) (d : Db) where
    abbrev t : Rows
    t = view d

    reads_user :
        (salt : ℕ) (email pass : String) (role : UserRole)
        → HasUser email t
        → OnlyReads
            (ensure_user S salt email pass role)
            d
            (λ u. Among u t.users × (u.email ≡ email))
    unfolding ensure_user
    reads_user salt email pass role =
        finds_row (create_account S salt email pass role) d (λ u. u.email ≡ email) t.users
          (S.find_user email) (laws.find_user-ok email d)

    reads_product :
        (p : ProductData)
        → (q : Product) × Among q t.products × (q.title ≡ p.title)
        → OnlyReads (ensure_product S p) d (λ q. Unit)
    unfolding ensure_product
    reads_product p h =
        let (same, _) =
          finds_row (saving S (S.save_product p)) d (λ q. q.title ≡ p.title) t.products
            (S.find_product p.title) (laws.find_product-ok p.title d) h in
        (same, λ a e. tt)

    reads_products :
        (ps : List ProductData) → HasProducts ps t → OnlyReads (ensure_products S ps) d (λ qs. Unit)
    unfolding ensure_products
    reads_products [] h = (refl, λ a e. tt)
    reads_products (p ∷ ps) (h, hs) =
        only_reads_bind (ensure_product S p) (λ q. ensure_products S ps >>= λ qs. pure (q ∷ qs)) d
          (λ q. Unit) (λ qs. Unit) (reads_product p h)
          (λ q _.
            only_reads_bind (ensure_products S ps) (λ qs. pure (q ∷ qs)) d (λ qs. Unit) (λ qs. Unit)
              (reads_products ps hs) (λ qs _. (refl, λ a e. tt)))

    reads_order :
        (key : ℕ) (u : User)
        → (o : Order) × Among o t.orders × IsOpen u.id o
        → OnlyReads (ensure_order S key u.id) d (λ o. Among o t.orders × IsOpen u.id o)
    unfolding ensure_order
    reads_order key u =
        finds_row (saving S (S.save_order u.id key)) d (IsOpen u.id) t.orders
          (S.find_order u.id created) (laws.find_order-ok u.id d)

    with_any :
        (m : Exec Db (Unit {0})) (i : OrderItem) (is : List OrderItem)
        → Among i is
        → OnlyReads (unless_any S is m) d (λ u. Unit)
    with_any m i [] there = elim there [ ]
    with_any m i (j ∷ is) there = (refl, λ a e. tt)

    reads_items :
        (o : Order) (qs : List Product)
        → (i : OrderItem) × Among i t.items × (i.order_id ≡ o.id)
        → OnlyReads (ensure_items S o qs) d (λ u. Unit)
    unfolding ensure_items
    reads_items o qs (i, there, of_order) =
        only_reads_bind (asking S (S.find_items o.id)) (λ is. unless_any S is (create_items S o qs))
          d (λ is. Among i is) (λ u. Unit)
          (refl, λ is e. (laws.find_items-ok o.id d is i e).1 there of_order)
          (λ is. with_any (create_items S o qs) i is)

    pub reads_seed :
        (salt salt' key : ℕ) → Seeded t → OnlyReads (seed_rows S salt salt' key) d (λ u. Unit)
    unfolding seed_rows
    reads_seed salt salt' key s =
        only_reads_bind (ensure_user S salt admin_email admin_pass admin) _ d
          (λ u. Among u t.users × (u.email ≡ admin_email)) (λ u. Unit)
          (reads_user salt admin_email admin_pass admin s.has_admin)
          (λ _ _.
            only_reads_bind (ensure_user S salt' user_email user_pass user) _ d
              (λ u. Among u t.users × (u.email ≡ user_email)) (λ u. Unit)
              (reads_user salt' user_email user_pass user s.has_user)
              (λ u (there, named).
                only_reads_bind (ensure_products S product_data) _ d (λ qs. Unit) (λ u. Unit)
                  (reads_products product_data s.has_products)
                  (λ qs _.
                    only_reads_bind (ensure_order S key u.id) (λ o. ensure_items S o qs) d
                      (λ o. Among o t.orders × IsOpen u.id o) (λ u. Unit)
                      (reads_order key u (s.has_order u there named))
                      (λ o (among, (_, unprocessed)).
                        reads_items o qs (s.filled o among unprocessed)))))
