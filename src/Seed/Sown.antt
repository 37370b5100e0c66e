-- ===== src/Seed/Sown.antt =====
-- Where the rows come from that src/seed/index.ts leaves.
use nodejs_pro_task.Base.{
  Among, ℕ, String, ◌≡◌, refl, sym, ap, subst, ◌∙◌, ◌⊎◌, inl, inr, List, [], ◌∷◌,
}
use nodejs_pro_task.Errors.{ok}
use nodejs_pro_task.Exec.{lift, bind_ok, pure, ◌>>=◌}
use nodejs_pro_task.Schema.{User, UserRole, user, admin, Product}
use nodejs_pro_task.Seed.{
  Rows, Store, ProductData, admin_email, admin_pass, user_email, user_pass, product_data, saving,
  create_account, ensure_user, ensure_product, ensure_products, ensure_order, ensure_items,
  seed_rows,
}
use nodejs_pro_task.Seed.Contract.{IsOpen, Describes, Laws}
use nodejs_pro_task.Seed.Ensured.{found_or_made, saved, ensures_user, ensures_products}
use nodejs_pro_task.Seed.Outcome.{ensures_order, ensures_items}

-- A new row of a list has the property.
abbrev New : {A : Type 0} → (A → Type 0) → List A → List A → Type 0
New P before after = (x : _) → Among x after → P x ⊎ Among x before

New-trans :
    {A : Type 0} (P : A → Type 0) (xs ys zs : List A) → New P xs ys → New P ys zs → New P xs zs
New-trans P xs ys zs f g x k = elim (g x k) [ inl new ↦ inl new | inr old ↦ f x old ]

New-same : {A : Type 0} (P : A → Type 0) (xs ys : List A) → xs ≡ ys → New P xs ys
New-same P xs ys e x k = inr (subst (Among x) (sym e) k)

New-cons : {A : Type 0} (P : A → Type 0) (a : A) (xs : List A) → P a → New P xs (a ∷ xs)
New-cons P a xs h x (inl same) = inl (subst P (sym same) h)
New-cons P a xs h x (inr old) = inr old

-- What the steps for users and products add.
abbrev Adds : (User → Type 0) → (Product → Type 0) → Rows → Rows → Type 0
Adds U P t t' = New U t.users t'.users × New P t.products t'.products

module _ (U : User → Type 0) (P : Product → Type 0) where
  Adds-same : (t t' : Rows) → t ≡ t' → Adds U P t t'
  Adds-same t t' e = (
    New-same U t.users t'.users (λ i. (e i).users),
    New-same P t.products t'.products (λ i. (e i).products),
  )

  Adds-trans : (r s t : Rows) → Adds U P r s → Adds U P s t → Adds U P r t
  Adds-trans r s t (f, g) (f', g') =
      (New-trans U r.users s.users t.users f f', New-trans P r.products s.products t.products g g')

-- A product that the script describes.
abbrev IsDescribed : Product → Type 0
IsDescribed x = (p : ProductData) × Among p product_data × Describes p x

module _ (S : Store) where
  open S use {Db, view}

  -- The account that the script creates, with the hash of its password.
  abbrev IsAccount : ℕ → String → String → UserRole → User → Type 0
  IsAccount salt email pass role u =
      (u.email ≡ email) × (S.hash salt pass ≡ ok u.password) × (u.role ≡ role)

  -- Each user is an old one, the administrator or the user of the script; each product is an old one or
  -- one of the script, with all its columns; each order is an old one or one of the script's user, with
  -- the status `created`.
  pub record Sown (salt salt' : ℕ) (t t' : Rows) : Type 0 where
    pub users :
        New
          (λ u.
            IsAccount salt admin_email admin_pass admin u
            ⊎ IsAccount salt' user_email user_pass user u)
          t.users
          t'.users
    pub products : New IsDescribed t.products t'.products
    pub orders :
        New
          (λ o. (u : User) × Among u t'.users × (u.email ≡ user_email) × IsOpen u.id o)
          t.orders
          t'.orders

  module _ (laws : Laws S) (U : User → Type 0) (P : Product → Type 0) where
    creates_account-Adds :
        (salt : ℕ) (email pass : String) (role : UserRole) (d d' : Db) (u : User)
        → ((x : User) → IsAccount salt email pass role x → U x)
        → create_account S salt email pass role d ≡ (ok u, d')
        → Adds U P (view d) (view d')
    unfolding create_account
    creates_account-Adds salt email pass role d d' u holds h =
        let (hashed, d₁, hashing, saves) =
          bind_ok (lift (S.hash salt pass)) (λ x. saving S (S.save_user email x role)) d d' u h in
        let ((named, kept, of_role), new) =
          laws.save_user-ok email hashed role d₁ d' u
            (saved S (S.save_user email hashed role) d₁ d' u saves) in
        let account = holds u (named, (λ i. (hashing i).0) ∙ ap ok (sym kept), of_role) in
        subst (λ x. Adds U P (view x) (view d')) (sym (λ i. (hashing i).1))
          (subst (λ t. Adds U P (view d₁) t) (sym new)
            (New-cons U u (view d₁).users account, λ x k. inr k))

    ensures_user-Adds :
        (salt : ℕ) (email pass : String) (role : UserRole) (d d' : Db) (u : User)
        → ((x : User) → IsAccount salt email pass role x → U x)
        → ensure_user S salt email pass role d ≡ (ok u, d')
        → Adds U P (view d) (view d')
    unfolding ensure_user
    ensures_user-Adds salt email pass role d d' u holds h =
        elim (found_or_made S (S.find_user email) (create_account S salt email pass role) d d' u
          (λ u. u.email ≡ email) (view d).users (laws.find_user-ok email d) h) [
            | inl (same, _) ↦ Adds-same U P (view d) (view d') (λ i. view (same i))
            | inr made ↦ creates_account-Adds salt email pass role d d' u holds made
          ]

    ensures_product-Adds :
        (p : ProductData) (d d' : Db) (q : Product)
        → ((x : Product) → Describes p x → P x)
        → ensure_product S p d ≡ (ok q, d')
        → Adds U P (view d) (view d')
    unfolding ensure_product
    ensures_product-Adds p d d' q holds h =
        elim (found_or_made S (S.find_product p.title) (saving S (S.save_product p)) d d' q
          (λ q. q.title ≡ p.title) (view d).products (laws.find_product-ok p.title d) h) [
            | inl (same, _) ↦ Adds-same U P (view d) (view d') (λ i. view (same i))
            | inr made ↦
                let (described, new) =
                  laws.save_product-ok p d d' q (saved S (S.save_product p) d d' q made) in
                subst (λ t. Adds U P (view d) t) (sym new)
                  ((λ x k. inr k), New-cons P q (view d).products (holds q described))
          ]

    ensures_products-Adds :
        (ps : List ProductData) (d d' : Db) (qs : List Product)
        → ((p : ProductData) → Among p ps → (x : Product) → Describes p x → P x)
        → ensure_products S ps d ≡ (ok qs, d')
        → Adds U P (view d) (view d')
    unfolding ensure_products
    ensures_products-Adds [] d d' qs holds h =
        Adds-same U P (view d) (view d') (λ i. view ((h i).1))
    ensures_products-Adds (p ∷ ps) d d' qs holds h =
        let (q, d₁, first, rest) =
          bind_ok (ensure_product S p) (λ q. ensure_products S ps >>= λ qs. pure (q ∷ qs)) d d' qs
            h in
        let (rs, d₂, others, end) =
          bind_ok (ensure_products S ps) (λ qs. pure (q ∷ qs)) d₁ d' qs rest in
        subst (λ x. Adds U P (view d) (view x)) (λ i. (end i).1)
          (Adds-trans U P (view d) (view d₁) (view d₂)
            (ensures_product-Adds p d d₁ q (holds p (inl refl)) first)
            (ensures_products-Adds ps d₁ d₂ rs (λ x k. holds x (inr k)) others))

  -- The block that returns has added nothing else.
  pub sows :
      (laws : Laws S) (salt salt' key : ℕ) (d d' : Db)
      → seed_rows S salt salt' key d ≡ (ok tt, d')
      → Sown salt salt' (view d) (view d')
  unfolding seed_rows
  sows laws salt salt' key d d' h =
      let (a, d₁, h₁, r₁) = bind_ok (ensure_user S salt admin_email admin_pass admin) _ d d' tt h in
      let (u, d₂, h₂, r₂) = bind_ok (ensure_user S salt' user_email user_pass user) _ d₁ d' tt r₁ in
      let (qs, d₃, h₃, r₃) = bind_ok (ensure_products S product_data) _ d₂ d' tt r₂ in
      let (o, d₄, h₄, r₄) =
        bind_ok (ensure_order S key u.id) (λ o. ensure_items S o qs) d₃ d' tt r₃ in
      let U : User → Type 0 = λ x.
        IsAccount salt admin_email admin_pass admin x
        ⊎ IsAccount salt' user_email user_pass user x in
      let add₁ =
        ensures_user-Adds laws U IsDescribed salt admin_email admin_pass admin d d₁ a (λ x k. inl k)
          h₁ in
      let add₂ =
        ensures_user-Adds laws U IsDescribed salt' user_email user_pass user d₁ d₂ u (λ x k. inr k)
          h₂ in
      let add₃ =
        ensures_products-Adds laws U IsDescribed product_data d₂ d₃ qs (λ p k x e. (p, k, e)) h₃ in
      let (users, products) =
        Adds-trans U IsDescribed (view d) (view d₂) (view d₃)
          (Adds-trans U IsDescribed (view d) (view d₁) (view d₂) add₁ add₂) add₃ in
      let (_, _, (orders₁, _)) = ensures_user S laws salt admin_email admin_pass admin d d₁ a h₁ in
      let ((user_there, is_user), _, (orders₂, _)) =
        ensures_user S laws salt' user_email user_pass user d₁ d₂ u h₂ in
      let (_, g₃, (orders₃, _)) = ensures_products S laws product_data d₂ d₃ qs h₃ in
      let ((_, is_open), g₄, users₄, _, at_most, products₄) =
        ensures_order S laws key u.id d₃ d₄ o h₄ in
      let (_, g₅, users₅, orders₅, products₅) = ensures_items S laws o qs d₄ d' r₄ in
      record {
        users = subst (New U (view d).users) (users₄ ∙ users₅) users;
        products = subst (New IsDescribed (view d).products) (products₄ ∙ products₅) products;
        orders = λ x there. elim (at_most x (subst (Among x) (sym orders₅) there)) [
          | inl same ↦ inl (
            u,
            g₅.users u (g₄.users u (g₃.users u user_there)),
            is_user,
            subst (IsOpen u.id) (sym same) is_open,
          )
          | inr old ↦ inr (subst (Among x) (sym (orders₁ ∙ orders₂ ∙ orders₃)) old)
        ];
      }
