-- ===== src/Seed/Ensured.antt =====
-- What each step of the script (src/seed/index.ts) that returns has found or made.
use nodejs_pro_task.Base.{
  Among, ℕ, String, ◌≡◌, refl, sym, ◌∙◌, subst, ◌⊎◌, inl, inr, arith, Option, none, some, List, [],
  ◌∷◌,
}
use nodejs_pro_task.Errors.{Result, ok, Result-cases, ok_injective}
use nodejs_pro_task.Exec.{Exec, pure, lift, continue, bind_ok, ◌>>=◌}
use nodejs_pro_task.Schema.{User, UserRole, Product, Order, OrderItem}
use nodejs_pro_task.Seed.{
  Rows, Store, ProductData, asking, saving, create_account, ensure_user, ensure_product,
  ensure_products, or_else,
}
use nodejs_pro_task.Seed.Contract.{Finds, Laws}
use nodejs_pro_task.Seed.Repeated.{HasProducts}

-- No row is lost.
pub record Grows (t t' : Rows) : Type 0 where
  pub users : (x : User) → Among x t.users → Among x t'.users
  pub products : (x : Product) → Among x t.products → Among x t'.products
  pub orders : (x : Order) → Among x t.orders → Among x t'.orders
  pub items : (x : OrderItem) → Among x t.items → Among x t'.items

pub Grows-refl : (t : Rows) → Grows t t
Grows-refl t = record { users = λ x h. h; products = λ x h. h; orders = λ x h. h; items = λ x h. h }

pub Grows-trans : {r s t : Rows} → Grows r s → Grows s t → Grows r t
Grows-trans g h = record {
  users = λ x k. h.users x (g.users x k);
  products = λ x k. h.products x (g.products x k);
  orders = λ x k. h.orders x (g.orders x k);
  items = λ x k. h.items x (g.items x k);
}

-- Only users and products are new.
abbrev pub SameOrders : Rows → Rows → Type 0
SameOrders t t' = (t.orders ≡ t'.orders) × (t.items ≡ t'.items)

module _ (S : Store) where
  open S use {Db, view}

  pub saved :
      {A : Type 0} (q : Db → Result (A × Db)) (d d' : Db) (a : A)
      → saving S q d ≡ (ok a, d')
      → q d ≡ ok (a, d')
  saved q d d' a h = elim (Result-cases (q d)) [
    | inl ((b, d₁), e) ↦ ground arith
    | inr (x, e) ↦ absurd (ground arith)
  ]

  pub found_or_made :
      {A : Type 0} (q : Db → Result (Option A)) (m : Exec Db A) (d d' : Db) (a : A) (p : A → Type 0)
      (rows : List A)
      → ((r : Option A) → q d ≡ ok r → Finds p rows r)
      → (asking S q >>= λ r. or_else S r m) d ≡ (ok a, d')
      → ((d ≡ d') × (Among a rows × p a)) ⊎ (m d ≡ (ok a, d'))
  found_or_made q m d d' a p rows finds h = elim (Result-cases (q d)) [
    | inr (x, e) ↦ absurd (ground arith)
    | inl (none, e) ↦ inr (sym (λ i. continue (e i) (λ r. or_else S r m) d) ∙ h)
    | inl (some b, e) ↦
        let step = sym (λ i. continue (e i) (λ r. or_else S r m) d) ∙ h in
        let same : b ≡ a = ok_injective (λ i. (step i).0) in
        inl ((λ i. (step i).1), subst (λ x. Among x rows × p x) same (finds (some b) e))
  ]

  -- A step that loses no row, leaves orders and items alone, and returns a row with the property.
  abbrev pub Outcome : {A : Type 0} → (Rows → A → Type 0) → Rows → Rows → A → Type 0
  Outcome P t t' a = P t' a × Grows t t' × SameOrders t t'

  unchanged :
      {A : Type 0} (P : Rows → A → Type 0) (d d' : Db) (a : A)
      → d ≡ d'
      → P (view d) a
      → Outcome P (view d) (view d') a
  unchanged P d d' a same h =
      subst (λ x. Outcome P (view d) (view x) a) same (h, Grows-refl (view d), (refl, refl))

  abbrev pub Named : String → Rows → User → Type 0
  Named email t u = Among u t.users × (u.email ≡ email)

  abbrev pub Titled : String → Rows → Product → Type 0
  Titled title t p = Among p t.products × (p.title ≡ title)

  module _ (laws : Laws S) where
    saves_user :
        (email hashed : String) (role : UserRole) (d d' : Db) (u : User)
        → saving S (S.save_user email hashed role) d ≡ (ok u, d')
        → Outcome (Named email) (view d) (view d') u
    saves_user email hashed role d d' u h =
        let ((named, _, _), new) =
          laws.save_user-ok email hashed role d d' u
            (saved (S.save_user email hashed role) d d' u h) in
        subst (λ t. Outcome (Named email) (view d) t u) (sym new)
          (
            (inl refl, named),
            record {
              users = λ x k. inr k;
              products = λ x k. k;
              orders = λ x k. k;
              items = λ x k. k;
            },
            (refl, refl),
          )

    creates_account :
        (salt : ℕ) (email pass : String) (role : UserRole) (d d' : Db) (u : User)
        → create_account S salt email pass role d ≡ (ok u, d')
        → Outcome (Named email) (view d) (view d') u
    unfolding create_account
    creates_account salt email pass role d d' u h =
        let (hashed, d₁, hashing, saves) =
          bind_ok (lift (S.hash salt pass)) (λ x. saving S (S.save_user email x role)) d d' u h in
        subst (λ x. Outcome (Named email) (view x) (view d') u) (sym (λ i. (hashing i).1))
          (saves_user email hashed role d₁ d' u saves)

    pub ensures_user :
        (salt : ℕ) (email pass : String) (role : UserRole) (d d' : Db) (u : User)
        → ensure_user S salt email pass role d ≡ (ok u, d')
        → Outcome (Named email) (view d) (view d') u
    unfolding ensure_user
    ensures_user salt email pass role d d' u h =
        elim (found_or_made (S.find_user email) (create_account S salt email pass role) d d' u
          (λ u. u.email ≡ email) (view d).users (laws.find_user-ok email d) h) [
            | inl (same, found) ↦ unchanged (Named email) d d' u same found
            | inr made ↦ creates_account salt email pass role d d' u made
          ]

    pub ensures_product :
        (p : ProductData) (d d' : Db) (q : Product)
        → ensure_product S p d ≡ (ok q, d')
        → Outcome (Titled p.title) (view d) (view d') q
    unfolding ensure_product
    ensures_product p d d' q h =
        elim (found_or_made (S.find_product p.title) (saving S (S.save_product p)) d d' q
          (λ q. q.title ≡ p.title) (view d).products (laws.find_product-ok p.title d) h) [
            | inl (same, found) ↦ unchanged (Titled p.title) d d' q same found
            | inr made ↦
                let ((titled, _, _, _), new) =
                  laws.save_product-ok p d d' q (saved (S.save_product p) d d' q made) in
                subst (λ t. Outcome (Titled p.title) (view d) t q) (sym new)
                  (
                    (inl refl, titled),
                    record {
                      users = λ x k. k;
                      products = λ x k. inr k;
                      orders = λ x k. k;
                      items = λ x k. k;
                    },
                    (refl, refl),
                  )
          ]

    pub ensures_products :
        (ps : List ProductData) (d d' : Db) (qs : List Product)
        → ensure_products S ps d ≡ (ok qs, d')
        → Outcome (λ t qs. HasProducts ps t) (view d) (view d') qs
    unfolding ensure_products
    ensures_products [] d d' qs h = unchanged (λ t qs. HasProducts [] t) d d' qs (λ i. (h i).1) tt
    ensures_products (p ∷ ps) d d' qs h =
        let (q, d₁, first, rest) =
          bind_ok (ensure_product S p) (λ q. ensure_products S ps >>= λ qs. pure (q ∷ qs)) d d' qs
            h in
        let (rs, d₂, others, end) =
          bind_ok (ensure_products S ps) (λ qs. pure (q ∷ qs)) d₁ d' qs rest in
        let ((there, titled), grows, (orders, items)) = ensures_product p d d₁ q first in
        let (have, grows', (orders', items')) = ensures_products ps d₁ d₂ rs others in
        subst (λ x. Outcome (λ t qs. HasProducts (p ∷ ps) t) (view d) (view x) qs) (λ i. (end i).1)
          (
            ((q, grows'.products q there, titled), have),
            Grows-trans grows grows',
            (orders ∙ orders', items ∙ items'),
          )
