-- ===== src/Seed/Memory.antt =====
-- Repositories in memory, which show that the contract of src/seed/index.ts can be met: the lists of
-- the rows, with a proof that no two users have one address.
pub mod Find
use nodejs_pro_task.Base.{
  Among, ℕ, zero, suc, String, ◌≡◌, refl, sym, ap, subst, ◌∙◌, ◌⊎◌, inl, inr, arith, eq_iff, str_eq,
  Bool, true, false, Option, none, some, List, [], ◌∷◌, ◌++◌, map, length, ◌==◌, eq_of_==,
  Bool-cases, if◌then◌else◌,
}
use nodejs_pro_task.Base.Int.{ℤ}
use nodejs_pro_task.Errors.{driver, Result, ok, err, ok_injective}
use nodejs_pro_task.Schema.{
  User, UserRole, Product, Order, OrderStatus, created, canceled, processed, paid, OrderItem,
}
use nodejs_pro_task.Database.Queries.{NewItem, inserted_item}
use nodejs_pro_task.Seed.{Rows, Store, ProductData}
use nodejs_pro_task.Seed.Contract.{Describes, Finds, IsOpen, Laws}
use Find.{
  Finds-behind, locate, located, eq_of_str_eq, same_text, test_open, items_of, HoldsItems,
  Among-items_of, Unique, Unique-cons,
}

pub record Stored : Type 0 where
  pub rows : Rows
  pub unique : Unique rows.users

abbrev pub add_user :
    (s : Stored) (u : User) → Finds (λ v. v.email ≡ u.email) s.rows.users none → Stored
add_user s u fresh = record {
  rows = record s.rows { users = u ∷ s.rows.users };
  unique = Unique-cons u s.rows.users fresh s.unique;
}

abbrev pub new_user : String → String → UserRole → Stored → User
new_user email hashed role s = record {
  id = length s.rows.users;
  email = email;
  password = hashed;
  role = role;
  created_at = 0;
  updated_at = 0;
}

abbrev pub insert_user :
    (email hashed : String) (role : UserRole) (s : Stored) (r : Option User)
    → Finds (λ v. v.email ≡ email) s.rows.users r
    → Result (User × Stored)
insert_user email hashed role s none fresh =
    ok (new_user email hashed role s, add_user s (new_user email hashed role s) fresh)
insert_user email hashed role s (some u) found = err (driver "23505")

abbrev pub named : (email : String) (u : User) → (u.email ≡ email) ⊎ ¬ (u.email ≡ email)
named email u = same_text u.email email

abbrev pub titled : (title : String) (p : Product) → (p.title ≡ title) ⊎ ¬ (p.title ≡ title)
titled title p = same_text p.title title

abbrev pub new_product : ProductData → Stored → Product
new_product p s = record {
  id = length s.rows.products;
  title = p.title;
  description = p.description;
  stock = p.stock;
  price = p.price;
  created_at = 0;
  updated_at = 0;
}

abbrev pub new_order : ℕ → ℕ → Stored → Order
new_order user key s = record {
  id = length s.rows.orders;
  user_id = user;
  status = created;
  idempotency_key = key;
  created_at = 0;
  updated_at = 0;
  processed_at = none;
}

abbrev pub find_with :
    {A : Type 0} (p : A → Type 0) → ((a : A) → p a ⊎ ¬ p a) → List A → Result (Option A)
find_with p test rows = ok (locate p test rows).0

abbrev pub memory : Store
memory = record {
  Db = Stored;
  view = λ s. s.rows;
  initialize = λ s. ok tt;
  destroy = λ s. ok tt;
  start = λ s. ok s;
  commit = λ s. ok s;
  rollback = λ s. ok tt;
  release = λ s. ok tt;
  find_user = λ email s. find_with (λ u. u.email ≡ email) (named email) s.rows.users;
  save_user = λ email hashed role s.
      let (r, found) = locate (λ u. u.email ≡ email) (named email) s.rows.users in
      insert_user email hashed role s r found;
  find_product = λ title s. find_with (λ p. p.title ≡ title) (titled title) s.rows.products;
  save_product = λ p s. ok (
    new_product p s,
    record s { rows = record s.rows { products = new_product p s ∷ s.rows.products } },
  );
  find_order = λ user status s. find_with (IsOpen user) (test_open user) s.rows.orders;
  save_order = λ user key s. ok (
    new_order user key s,
    record s { rows = record s.rows { orders = new_order user key s ∷ s.rows.orders } },
  );
  find_items = λ o s. ok (items_of o s.rows.items);
  save_items = λ is s.
      ok (record s { rows = record s.rows { items = map (inserted_item 0) is ++ s.rows.items } });
  hash = λ salt password. ok password;
}

saved_row :
    {A : Type 0} (P : A → Stored → Type 0) (a b : A) (s s' : Stored)
    → ◌≡◌ {A = Result (A × Stored)} (ok (a, s)) (ok (b, s'))
    → P a s
    → P b s'
saved_row P a b s s' h k = let e = ok_injective h in subst (λ x. P x.0 x.1) e k

inserted :
    (email hashed : String) (role : UserRole) (s s' : Stored) (u : User) (r : Option User)
    (found : Finds (λ v. v.email ≡ email) s.rows.users r)
    → insert_user email hashed role s r found ≡ ok (u, s')
    → ((u.email ≡ email) × (u.password ≡ hashed) × (u.role ≡ role))
      × (s'.rows ≡ record s.rows { users = u ∷ s.rows.users })
inserted email hashed role s s' u (some v) found h = absurd (ground arith)
inserted email hashed role s s' u none fresh h =
    saved_row
      (λ u s'.
        ((u.email ≡ email) × (u.password ≡ hashed) × (u.role ≡ role))
        × (s'.rows ≡ record s.rows { users = u ∷ s.rows.users }))
      (new_user email hashed role s) u (add_user s (new_user email hashed role s) fresh) s' h
      ((refl, refl, refl), refl)

pub memory-Laws : Laws memory
memory-Laws = record {
  unique_email = λ d. d.unique;
  start_lem = λ d w h. ap (λ s. s.rows) (sym (ok_injective h));
  commit_lem = λ w d h. ap (λ s. s.rows) (sym (ok_injective h));
  find_user-ok = λ email d. located (λ u. u.email ≡ email) (named email) d.rows.users;
  save_user-ok = λ email hashed role d d' u.
      let (r, found) = locate (λ u. u.email ≡ email) (named email) d.rows.users in
      inserted email hashed role d d' u r found;
  find_product-ok = λ title d. located (λ p. p.title ≡ title) (titled title) d.rows.products;
  save_product-ok = λ p d d' q h.
      saved_row
        (λ q d'. Describes p q × (d'.rows ≡ record d.rows { products = q ∷ d.rows.products }))
        (new_product p d) q _ d' h ((refl, refl, refl, refl), refl);
  find_order-ok = λ user d. located (IsOpen user) (test_open user) d.rows.orders;
  save_order-ok = λ user key d d' o h.
      saved_row (λ o d'. IsOpen user o × (d'.rows ≡ record d.rows { orders = o ∷ d.rows.orders }))
        (new_order user key d) o _ d' h ((refl, refl), refl);
  find_items-ok = λ o d is i h.
      subst (λ picked. HoldsItems o i d.rows.items picked) (ok_injective h)
        (Among-items_of o i d.rows.items);
  save_items-ok = λ is d d' h. (0, ap (λ s. s.rows) (sym (ok_injective h)));
}
