-- ===== src/Seed/Contract.antt =====
-- What src/seed/index.ts relies on in the repositories and the transaction.
use nodejs_pro_task.Base.{Among, ℕ, String, ◌≡◌, Option, none, some, List, ◌∷◌, ◌++◌, map}
use nodejs_pro_task.Errors.{ok}
use nodejs_pro_task.Schema.{User, UserRole, Product, Order, created, OrderItem}
use nodejs_pro_task.Database.Queries.{NewItem, inserted_item}
use nodejs_pro_task.Seed.{Store, ProductData}

-- What `findOne` can return: a row that meets the conditions, or nothing when there is none.
abbrev pub Finds : {A : Type 0} → (A → Type 0) → List A → Option A → Type 0
Finds p rows none = (a : _) → Among a rows → ¬ p a
Finds p rows (some a) = Among a rows × p a

abbrev pub IsOpen : ℕ → Order → Type 0
IsOpen user o = (o.user_id ≡ user) × (o.status ≡ created)

-- The columns of a product that is saved.
abbrev pub Describes : ProductData → Product → Type 0
Describes data' p =
    (p.title ≡ data'.title)
    × (p.description ≡ data'.description)
    × (p.stock ≡ data'.stock)
    × (p.price ≡ data'.price)

module _ (S : Store) where
  open S use {Db, view}

  pub record Laws : Type 0 where
    -- The unique constraint on the address.
    pub unique_email :
        (d : Db) (u v : User)
        → Among u (view d).users
        → Among v (view d).users
        → u.email ≡ v.email
        → u ≡ v
    pub start_lem : (d w : Db) → S.start d ≡ ok w → view w ≡ view d
    pub commit_lem : (w d : Db) → S.commit w ≡ ok d → view d ≡ view w
    pub find_user-ok :
        (email : String) (d : Db) (r : Option User)
        → S.find_user email d ≡ ok r
        → Finds (λ u. u.email ≡ email) (view d).users r
    pub save_user-ok :
        (email hashed : String) (role : UserRole) (d d' : Db) (u : User)
        → S.save_user email hashed role d ≡ ok (u, d')
        → ((u.email ≡ email) × (u.password ≡ hashed) × (u.role ≡ role))
          × (view d' ≡ record (view d) { users = u ∷ (view d).users })
    pub find_product-ok :
        (title : String) (d : Db) (r : Option Product)
        → S.find_product title d ≡ ok r
        → Finds (λ p. p.title ≡ title) (view d).products r
    pub save_product-ok :
        (data' : ProductData) (d d' : Db) (p : Product)
        → S.save_product data' d ≡ ok (p, d')
        → Describes data' p × (view d' ≡ record (view d) { products = p ∷ (view d).products })
    pub find_order-ok :
        (user : ℕ) (d : Db) (r : Option Order)
        → S.find_order user created d ≡ ok r
        → Finds (IsOpen user) (view d).orders r
    pub save_order-ok :
        (user key : ℕ) (d d' : Db) (o : Order)
        → S.save_order user key d ≡ ok (o, d')
        → IsOpen user o × (view d' ≡ record (view d) { orders = o ∷ (view d).orders })
    pub find_items-ok :
        (order : ℕ) (d : Db) (is : List OrderItem) (i : OrderItem)
        → S.find_items order d ≡ ok is
        → (Among i is → Among i (view d).items × (i.order_id ≡ order))
          × (Among i (view d).items → i.order_id ≡ order → Among i is)
    pub save_items-ok :
        (is : List NewItem) (d d' : Db)
        → S.save_items is d ≡ ok d'
        → (moment : ℕ) × (view d'
            ≡ record (view d) { items = map (inserted_item moment) is ++ (view d).items })
