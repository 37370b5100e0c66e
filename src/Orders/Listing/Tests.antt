-- ===== src/Orders/Listing/Tests.antt =====
-- Two users, three orders, and what the handlers show of them.
use nodejs_pro_task.Base.{
  ℕ, zero, suc, ◌*◌, ◌+◌, ◌<◌, ◌≡◌, true, false, refl, sym, ◌∙◌, inl, inr, Bool-cases, ◌==◌, none,
  some, List, [], ◌∷◌, arith, take, length, ◌≤◌,
}
use nodejs_pro_task.Base.Int.{pos, ◌-ℤ◌}
use nodejs_pro_task.Errors.{ok, err}
use nodejs_pro_task.Schema.{Order, created}
use nodejs_pro_task.Database.Memory.{tables, Store, memory, find_one}
use nodejs_pro_task.Database.Memory.Lawful.{memory-Laws}
use nodejs_pro_task.Database.Queries.{LoadedOrder}
use nodejs_pro_task.Orders.Listing.{
  OrderFilter, OrderResponseDto, to_dto, find_by_id, get_order, list, list_orders, page_query, ◌*ℤ◌,
  not_found,
}
use nodejs_pro_task.Orders.Listing.Own.{IsOwn, get_order-IsOwn, get_order-not_found}
use nodejs_pro_task.Orders.Listing.Pages.{list-first_pages, first_pages}
use nodejs_pro_task.Orders.Listing.Bounds.{list_orders-length}
use nodejs_pro_task.Database.Memory.Rows.{Row}
use nodejs_pro_task.Orders.Listing.Ranking.{NoTies, Ranked}
use nodejs_pro_task.Orders.Listing.Contract.{ids, row_ids}
use nodejs_pro_task.Orders.Listing.Memory.{get_many, get_many-Lists}

abbrev order_of : ℕ → ℕ → Order
order_of user id = record {
  id = id;
  user_id = user;
  status = created;
  idempotency_key = 90 + id;
  created_at = id;
  updated_at = id;
  processed_at = none;
}

abbrev store : Store
store = record {
  clock = 5;
  users = [];
  products = [];
  rows =
      record { order = order_of 1 2; items = [] }
      ∷ record { order = order_of 7 1; items = [] }
      ∷ record { order = order_of 1 0; items = [] }
      ∷ [];
  processed = [];
}

abbrev shown : ℕ → OrderResponseDto
shown id = record {
  id = id;
  status = created;
  created_at = id;
  user_id = none;
  idempotency_key = none;
  updated_at = none;
  processed_at = none;
  items = [];
}

abbrev shown_one : OrderResponseDto
shown_one = record (shown 2) {
  idempotency_key = some 92;
  updated_at = some 2;
  processed_at = some none;
}

got : get_order memory 1 2 store ≡ ok (some shown_one)
unfolding get_order find_by_id find_one to_dto
got = refl

get_order-IsOwn_example : IsOwn memory store 1 true shown_one × (shown_one.id ≡ 2)
get_order-IsOwn_example = get_order-IsOwn memory 1 store 2 shown_one memory-Laws got

get_order-not_found_example : get_order memory 1 1 store ≡ err (not_found "Order not found")
unfolding find_one
get_order-not_found_example =
    get_order-not_found memory 1 store (order_of 7 1) memory-Laws refl (λ e. omega arith)
      (none, refl)

abbrev of_one : OrderFilter
of_one = record { status = created; user_id = some 1; from = none; to = none }

abbrev loaded : ℕ → LoadedOrder
loaded id = record {
  id = id;
  status = created;
  created_at = id;
  user_id = none;
  idempotency_key = none;
  updated_at = none;
  processed_at = none;
  items = some [];
}

-- The pages of one order each.
abbrev pages : ℕ → List LoadedOrder
pages zero = loaded 2 ∷ []
pages (suc zero) = loaded 0 ∷ []
pages (suc (suc p)) = []

each_page : (p : ℕ) → p < 2 → list memory get_many of_one (pos (suc p)) (pos 1) store ≡ ok (pages p)
unfolding list page_query ◌*ℤ◌ ◌-ℤ◌
each_page zero h = refl
each_page (suc zero) h = refl
each_page (suc (suc p)) h = absurd (omega arith)

-- Each order of this store was created at the moment that is its number.
numbered : (j : ℕ) (o : Order) → (tables store).orders j ≡ some o → o.created_at ≡ j
numbered j o h = elim (Bool-cases (2 == j)) [
  | inl two ↦ ground arith
  | inr not_two ↦
      let at_two : (length (record { order = order_of 7 1; items = [] } ∷ last) == j) ≡ false =
        not_two in
      elim (Bool-cases (1 == j)) [
        | inl one ↦ let at_one : (length last == j) ≡ true = one in ground arith
        | inr not_one ↦
            let at_one : (length last == j) ≡ false = not_one in
            elim (Bool-cases (0 == j)) [
              | inl first ↦ let at_first : (length no_rows == j) ≡ true = first in ground arith
              | inr not_first ↦
                  let at_first : (length no_rows == j) ≡ false = not_first in absurd (ground arith)
            ]
      ]
]
  where
    no_rows : List Row
    no_rows = []

    last : List Row
    last = record { order = order_of 1 0; items = [] } ∷ []

no_ties : NoTies of_one (tables store)
no_ties o p stored stored' accepted accepted' same =
    sym (numbered o.id o stored) ∙ same ∙ numbered p.id p stored'

list-first_pages_example :
    (rows : List Order) × Ranked of_one (tables store) rows
    × (ids (first_pages 2 pages) ≡ take (2 * 1) (row_ids rows))
list-first_pages_example =
    list-first_pages memory get_many get_many-Lists of_one 0 store 1 pages no_ties each_page

second_page :
    list_orders memory get_many 1 created (pos 2) (pos 1) none none store ≡ ok (shown 0 ∷ [])
unfolding list_orders list page_query to_dto ◌*ℤ◌ ◌-ℤ◌
second_page = refl

list_orders-length_example : length (shown 0 ∷ []) ≤ 1
list_orders-length_example =
    list_orders-length memory get_many get_many-Lists 1 1 0 created none none store (shown 0 ∷ [])
      second_page
