-- ===== src/Database/Memory/Live.antt =====
-- The database in memory is up: each call of it succeeds when the contract lets it.
use nodejs_pro_task.Base.{
  ℕ, String, ◌≡◌, refl, subst, ◌≢◌, inl, inr, Bool, true, false, ◌&&◌, Option, none, some, List, [],
  ◌∷◌, ◌++◌, ◌==◌, length, if◌then◌else◌, Bool-cases, Option-cases, arith,
}
use nodejs_pro_task.Errors.{Result, ok, err}
use nodejs_pro_task.Schema.{Product, Order}
use nodejs_pro_task.Database.Contract.{IsUp, HasKey, unique_violation}
use nodejs_pro_task.Database.Queries.{LoadedOrder, NewItem, FindOptions, load, meets, new_item_for}
use nodejs_pro_task.Database.Memory.{
  Store, tables, processed_for, has_key, new_order, save_order, find_one, find_one_or_fail,
  update_order, save_items, save_products, insert_processed, transaction, memory, user_for,
  lock_products,
}
use nodejs_pro_task.Database.Memory.Rows.{
  Row, named, at, order_at, find_row, at-fresh, find_row-none, put_all, all_known,
}
use nodejs_pro_task.Database.Memory.Products.{pick, stamped}
use nodejs_pro_task.Database.Memory.Proofs.{HasKey-find_row, no_key}

known_items :
    (is : List NewItem) (rs : List Row)
    → ((o j : ℕ) (i : NewItem) → new_item_for o j is ≡ some i → order_at o rs ≢ none)
    → all_known is rs ≡ true
known_items [] rs h = refl
known_items (i ∷ is) rs h =
    let here = h i.order_id i.product_id i (ground arith) in
    let rest = known_items is rs (later here) in ground (arith, at-fresh i.order_id rs)
  where
    later :
        order_at i.order_id rs ≢ none
        → (o j : ℕ) (x : NewItem) → new_item_for o j is ≡ some x
        → order_at o rs ≢ none
    later here o j x e = elim (Bool-cases ((i.order_id == o) && (i.product_id == j))) [
      | inl hit ↦
          let same : i.order_id ≡ o = ground arith in
          subst (λ (k : ℕ). order_at k rs ≢ none) same here
      | inr miss ↦ h o j x (ground arith)
    ]

locks_some :
    (ids : List ℕ) (s : Store) → ids ≢ [] → (ps : List Product) × (lock_products ids s ≡ ok ps)
locks_some [] s some_ids = absurd (some_ids refl)
locks_some (i ∷ is) s some_ids = (pick (i ∷ is) s.products, refl)

saves_new :
    (user key : ℕ) (s : Store)
    → (¬ HasKey memory (tables s) user key)
    → user_for user s.users ≢ none
    → (o : Order) × (s' : Store) × (save_order user key s ≡ ok (o, s'))
unfolding save_order
saves_new user key s absent there = elim (Option-cases (find_row (has_key user key) s.rows)) [
  | inr ((j, r), e) ↦ absurd (absent (HasKey-find_row user key s j r e))
  | inl e ↦ elim (Option-cases (user_for user s.users)) [
    | inl f ↦ absurd (there f)
    | inr (u, f) ↦ (
      new_order user key s,
      record s { rows = record { order = new_order user key s; items = [] } ∷ s.rows },
      ground arith,
    )
  ]
]

refuses_old :
    (user key : ℕ) (s : Store)
    → HasKey memory (tables s) user key
    → save_order user key s ≡ err unique_violation
unfolding save_order
refuses_old user key s held = elim (Option-cases (find_row (has_key user key) s.rows)) [
  | inl e ↦ absurd (no_key user key s e held)
  | inr (x, e) ↦ ground arith
]

finds_some :
    (q : FindOptions) (s : Store) (o : Order)
    → order_at o.id s.rows ≡ some o
    → meets q o ≡ true
    → (l : LoadedOrder) × (find_one_or_fail q s ≡ ok l)
unfolding find_one_or_fail
finds_some q s o stored met = elim (Option-cases (find_row (meets q) s.rows)) [
  | inr ((j, r), e) ↦ (load q (named j r.order) r.items, ground arith)
  | inl e ↦ elim (Option-cases (at o.id s.rows)) [
    | inl f ↦ absurd (ground arith)
    | inr (r, f) ↦
        let same : named o.id r.order ≡ o = ground arith in
        let miss =
          subst (λ (x : Order). meets q x ≡ false) same
            (find_row-none (meets q) o.id r s.rows e f) in
        absurd (ground arith)
  ]
]

finds_any : (q : FindOptions) (s : Store) → (r : Option LoadedOrder) × (find_one q s ≡ ok r)
unfolding find_one
finds_any q s = elim (Option-cases (find_row (meets q) s.rows)) [
  | inl e ↦ (none, ground arith)
  | inr ((j, r), e) ↦ (some (load q (named j r.order) r.items), ground arith)
]

abbrev with_message : ℕ → String → Store → Store
with_message i h s = record s {
  processed =
      record { id = length s.processed; message_id = i; handler = h; processed_at = s.clock }
      ∷ s.processed;
}

inserts_new :
    (i : ℕ) (h : String) (s : Store)
    → processed_for i h s.processed ≡ none
    → (s' : Store) × (insert_processed i h s ≡ ok s')
unfolding insert_processed
inserts_new i h s e = (with_message i h s, ground arith)

refuses_repeated :
    (i : ℕ) (h : String) (s : Store)
    → processed_for i h s.processed ≢ none
    → insert_processed i h s ≡ err unique_violation
unfolding insert_processed
refuses_repeated i h s e = ground arith

transacts_as : (f : Store → Result Bool × Store) (s : Store) → (transaction f s).0 ≡ (f s).0
unfolding transaction
transacts_as f s = ground arith

pub memory-IsUp : IsUp memory
unfolding save_products save_items insert_processed update_order transaction
memory-IsUp = record {
  starts = λ s. (s, refl);
  commits = λ s. (s, refl);
  rolls_back = λ s. refl;
  releases = λ s. refl;
  saves_order = saves_new;
  refuses_order = refuses_old;
  finds = finds_any;
  finds_or_fails = finds_some;
  locks = locks_some;
  saves_products = λ ps s _. (record s { products = stamped s.clock ps ++ s.products }, refl);
  saves_items = λ is s _ known. (
    record s { rows = put_all s.clock is s.rows },
    rw (known_items is s.rows (λ o j i e. (known o j i e).0), if◌then◌else◌),
  );
  inserts_processed = inserts_new;
  refuses_processed = refuses_repeated;
  updates_order = λ id status processed s. (_, refl);
  transacts = λ f s. (s, refl, transacts_as f s);
}
