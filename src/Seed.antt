-- ===== src/Seed.antt =====
-- src/seed/index.ts and src/seed/constants.ts: the rows that a development database begins with. The
-- repositories of TypeORM and bcrypt are the record `Store`, with its contract in Contract.
pub mod Contract
pub mod Repeated
pub mod Ensured
pub mod Outcome
pub mod Sown
pub mod Guarantees
pub mod Memory
mod Tests
use nodejs_pro_task.Base.{
  ℕ, String, Bool, true, false, ◌&&◌, not, Option, none, some, List, [], ◌∷◌, if◌then◌else◌,
}
use nodejs_pro_task.Base.Int.{ℤ, pos}
use nodejs_pro_task.Errors.{plain, Result, ok, err}
use nodejs_pro_task.Exec.{Exec, pure, lift, ◌>>=◌, ◌>>◌}
use nodejs_pro_task.Schema.{
  User, UserRole, user, admin, Product, Order, OrderStatus, created, OrderItem,
}
use nodejs_pro_task.Database.Queries.{NewItem}

pub record ProductData : Type 0 where
  pub title : String
  pub description : String
  pub stock : ℤ
  pub price : String

abbrev pub admin_email : String
admin_email = "admin@example.com"

abbrev pub admin_pass : String
admin_pass = "admin-pass"

abbrev pub user_email : String
user_email = "user@example.com"

abbrev pub user_pass : String
user_pass = "user-pass"

abbrev pub product_data : List ProductData
product_data =
    record {
      title = "Laptop";
      description = "High performance laptop";
      stock = pos 10;
      price = "1200";
    }
    ∷ record { title = "Mouse"; description = "Wireless mouse"; stock = pos 50; price = "25" }
    ∷ record {
      title = "Keyboard";
      description = "Mechanical keyboard";
      stock = pos 30;
      price = "100";
    }
    ∷ []

-- The rows of the tables.
pub record Rows : Type 0 where
  pub users : List User
  pub products : List Product
  pub orders : List Order
  pub items : List OrderItem

pub record Store : Type 1 where
  pub Db : Type 0
  pub view : Db → Rows
  -- `DataSource.initialize` and `destroy`.
  pub initialize : Db → Result (Unit {0})
  pub destroy : Db → Result (Unit {0})
  -- The query runner: `connect` with `startTransaction`, `commitTransaction`, `rollbackTransaction` and
  -- `release`.
  pub start : Db → Result Db
  pub commit : Db → Result Db
  pub rollback : Db → Result (Unit {0})
  pub release : Db → Result (Unit {0})
  -- `findOne` by the address, and `save` of an address, a hash and a role.
  pub find_user : String → Db → Result (Option User)
  pub save_user : String → String → UserRole → Db → Result (User × Db)
  -- `findOne` by the title, and `save`.
  pub find_product : String → Db → Result (Option Product)
  pub save_product : ProductData → Db → Result (Product × Db)
  -- `findOne` by the user and the status, and `save` of a user and a key.
  pub find_order : ℕ → OrderStatus → Db → Result (Option Order)
  pub save_order : ℕ → ℕ → Db → Result (Order × Db)
  -- `find` by the order, and `save` of a list.
  pub find_items : ℕ → Db → Result (List OrderItem)
  pub save_items : List NewItem → Db → Result Db
  -- bcrypt, with its random salt.
  pub hash : ℕ → String → Result String

module _ (S : Store) where
  open S use {Db}

  abbrev pub asking : {A : Type 0} → (Db → Result A) → Exec Db A
  asking q d = (q d, d)

  abbrev pub saving : {A : Type 0} → (Db → Result (A × Db)) → Exec Db A
  saving q d = elim (q d) [ ok (a, d') ↦ (ok a, d') | err e ↦ (err e, d) ]

  abbrev pub or_else : {A : Type 0} → Option A → Exec Db A → Exec Db A
  or_else none m = m
  or_else (some a) m = pure a

  unfoldable pub create_account : ℕ → String → String → UserRole → Exec Db User
  create_account salt email pass role = do
    hashed ← lift (S.hash salt pass)
    saving (S.save_user email hashed role)

  -- The block that is written for the administrator and for the user.
  unfoldable pub ensure_user : ℕ → String → String → UserRole → Exec Db User
  ensure_user salt email pass role = do
    found ← asking (S.find_user email)
    or_else found (create_account salt email pass role)

  -- The body of the loop over the products.
  unfoldable pub ensure_product : ProductData → Exec Db Product
  ensure_product p = do
    found ← asking (S.find_product p.title)
    or_else found (saving (S.save_product p))

  unfoldable pub ensure_products : List ProductData → Exec Db (List Product)
  ensure_products [] = pure []
  ensure_products (p ∷ ps) = do
    product ← ensure_product p
    products ← ensure_products ps
    pure (product ∷ products)

  unfoldable pub ensure_order : ℕ → ℕ → Exec Db Order
  ensure_order key id = do
    found ← asking (S.find_order id created)
    or_else found (saving (S.save_order id key))

  -- Of two products at least; there is no price of one that is undefined.
  unfoldable pub create_items : Order → List Product → Exec Db (Unit {0})
  create_items o (p ∷ q ∷ _) d =
      elim (S.save_items
        (record { order_id = o.id; product_id = p.id; qty = pos 1; purchase_price = p.price }
          ∷ record { order_id = o.id; product_id = q.id; qty = pos 2; purchase_price = q.price }
          ∷ [])
        d) [ ok d' ↦ (ok tt, d') | err e ↦ (err e, d) ]
  create_items o _ d = (err (plain "Cannot read properties of undefined (reading 'price')"), d)

  abbrev pub unless_any : List OrderItem → Exec Db (Unit {0}) → Exec Db (Unit {0})
  unless_any [] m = m
  unless_any (i ∷ is) m = pure tt

  unfoldable pub ensure_items : Order → List Product → Exec Db (Unit {0})
  ensure_items o products = do
    existing ← asking (S.find_items o.id)
    unless_any existing (create_items o products)

  -- The block `try`, up to the commit. `salt` and `key` are the random values.
  unfoldable pub seed_rows : ℕ → ℕ → ℕ → Exec Db (Unit {0})
  seed_rows salt salt' key = do
    ensure_user salt admin_email admin_pass admin
    u ← ensure_user salt' user_email user_pass user
    products ← ensure_products product_data
    order ← ensure_order key u.id
    ensure_items order products

  -- The data source: what is committed, and whether it is initialised.
  pub record DataSource : Type 0 where
    pub db : Db
    pub is_initialized : Bool

  -- Whether a data source was given; without one the application's own is initialised.
  unfoldable pub ensure_initialized : Bool → Exec DataSource (Unit {0})
  ensure_initialized given s =
      if given && s.is_initialized then (ok tt, s) else elim (S.initialize s.db) [
        | ok _ ↦ (ok tt, record s { is_initialized = true })
        | err e ↦ (err e, s)
      ]

  -- The transaction, up to its end: `catch` rolls back what did not commit.
  unfoldable pub in_transaction : Exec Db (Unit {0}) → Db → Exec DataSource (Unit {0})
  in_transaction body w s =
      let (r, w') = body w in
      elim r [
        | ok _ ↦ elim (S.commit w') [
          | ok d ↦ (ok tt, record s { db = d })
          | err e ↦ elim (S.rollback w') [ ok _ ↦ (err e, s) | err f ↦ (err f, s) ]
        ]
        | err e ↦ elim (S.rollback w') [ ok _ ↦ (err e, s) | err f ↦ (err f, s) ]
      ]

  -- `finally`, whose errors replace the one before.
  unfoldable pub finish : Bool → Db → Result (Unit {0}) → Exec DataSource (Unit {0})
  finish given w r s = elim (S.release w) [
    | err e ↦ (err e, s)
    | ok _ ↦ if given then (r, s) else elim (S.destroy s.db) [
      | ok _ ↦ (r, record s { is_initialized = false })
      | err e ↦ (err e, s)
    ]
  ]

  unfoldable pub run_seed : Bool → Exec Db (Unit {0}) → Exec DataSource (Unit {0})
  unfolding in_transaction finish
  run_seed given body s = elim (S.start s.db) [
    | err e ↦ (err e, s)
    | ok w ↦ let (r, s') = in_transaction body w s in finish given w r s'
  ]

  unfoldable pub seed : Bool → ℕ → ℕ → ℕ → Exec DataSource (Unit {0})
  unfolding ensure_initialized run_seed
  seed given salt salt' key = do ensure_initialized given; run_seed given (seed_rows salt salt' key)
