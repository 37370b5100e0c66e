-- ===== src/Orders/Listing/Pages.antt =====
-- The pages of a list of orders (find of src/orders/orders.repository.ts).
use nodejs_pro_task.Base.{
  ℕ, zero, suc, ◌+◌, ◌*◌, ◌<◌, ◌≡◌, refl, sym, ap, ◌∙◌, List, [], ◌∷◌, ◌++◌, arith, take, drop,
  take-add, map-append,
}
use nodejs_pro_task.Base.Int.{pos, ◌-ℤ◌, sub_ℕ}
use nodejs_pro_task.Errors.{ok}
use nodejs_pro_task.Schema.{Order}
use nodejs_pro_task.Database.{Database}
use nodejs_pro_task.Database.Queries.{LoadedOrder}
use nodejs_pro_task.Orders.Listing.{OrderFilter, GetMany, list, page_query, ◌*ℤ◌}
use nodejs_pro_task.Orders.Listing.Contract.{ids, row_ids, Lists}
use nodejs_pro_task.Orders.Listing.Ranking.{NoTies, Ranked, Ranked-unique}

-- The first pages, one after the other.
abbrev pub first_pages : ℕ → (ℕ → List LoadedOrder) → List LoadedOrder
first_pages zero pages = []
first_pages (suc n) pages = first_pages n pages ++ pages n

take_none : (n : ℕ) (js : List ℕ) → n ≡ 0 → take n js ≡ []
take_none n [] e = refl
take_none n (j ∷ js) e = ap (λ k. take k (j ∷ js)) e

skip_lem : (p l : ℕ) → (pos (suc p) -ℤ pos 1) *ℤ pos l ≡ pos (p * l)
unfolding ◌-ℤ◌ ◌*ℤ◌
skip_lem p l =
    let e : pos (suc p) -ℤ pos 1 ≡ pos p = ground arith in
    let a : p * l + 0 * 0 ≡ p * l = ground arith in
    let b : p * 0 + 0 * l ≡ 0 = ground arith in
    ap (λ z. z *ℤ pos l) e
    ∙ ap (λ n. sub_ℕ n (p * 0 + 0 * l)) a
    ∙ ap (sub_ℕ (p * l)) b
    ∙ ground arith

module _ (D : Database) (get_many : GetMany D) (lists : Lists D get_many) (filter : OrderFilter)
    (limit : ℕ) (d : D.Db) where
  -- One page of a list, counted from 1, is its place in the orders that meet the conditions.
  pub list-page :
      (p : ℕ) (os : List LoadedOrder)
      → list D get_many filter (pos (suc p)) (pos (suc limit)) d ≡ ok os
      → (rows : List Order) × Ranked filter (D.view d) rows
        × (ids os ≡ take (suc limit) (drop (p * suc limit) (row_ids rows)))
  unfolding list page_query
  list-page p os h =
      lists.page (page_query filter (pos (suc p)) (pos (suc limit))) d os limit (p * suc limit) h
        refl refl (skip_lem p (suc limit))

  module _ (no_ties : NoTies filter (D.view d)) (rows : List Order)
      (ranked : Ranked filter (D.view d) rows) where
    -- Every page is cut from one list.
    same_page :
        (p : ℕ) (os : List LoadedOrder)
        → list D get_many filter (pos (suc p)) (pos (suc limit)) d ≡ ok os
        → ids os ≡ take (suc limit) (drop (p * suc limit) (row_ids rows))
    same_page p os h =
        let (rows', ranked', e) = list-page p os h in
        e
        ∙ ap (λ (xs : List Order). take (suc limit) (drop (p * suc limit) (row_ids xs)))
            (Ranked-unique filter (D.view d) no_ties rows' rows ranked' ranked)

    pages-take :
        (n : ℕ) (pages : ℕ → List LoadedOrder)
        → ((p : ℕ)
            → p < n
            → list D get_many filter (pos (suc p)) (pos (suc limit)) d ≡ ok (pages p))
        → ids (first_pages n pages) ≡ take (n * suc limit) (row_ids rows)
    pages-take zero pages h = sym (take_none (0 * suc limit) (row_ids rows) (ground arith))
    pages-take (suc n) pages h =
        let e : suc n * suc limit ≡ n * suc limit + suc limit = ground arith in
        let before = pages-take n pages (λ p l. h p (omega arith)) in
        let last = same_page n (pages n) (h n (omega arith)) in
        map-append (λ o. o.id) (first_pages n pages) (pages n)
        ∙ ap (λ js. js ++ ids (pages n)) before
        ∙ ap (λ js. take (n * suc limit) (row_ids rows) ++ js) last
        ∙ sym (take-add (n * suc limit) (suc limit) (row_ids rows))
        ∙ ap (λ m. take m (row_ids rows)) (sym e)

  -- Read from the same database, whose orders that meet the conditions were all created at
  -- different moments, with at least one order on a page, the first pages of a list (one at
  -- least), whose reads all return, have together, in this order, the identifiers of the first
  -- rows of a list that has each order that meets the conditions once and no other, newest first,
  -- as many as the pages can hold: no page repeats an order of another or leaves one out.
  pub list-first_pages :
      (n : ℕ) (pages : ℕ → List LoadedOrder)
      → NoTies filter (D.view d)
      → ((p : ℕ)
          → p < suc n
          → list D get_many filter (pos (suc p)) (pos (suc limit)) d ≡ ok (pages p))
      → (rows : List Order) × Ranked filter (D.view d) rows
        × (ids (first_pages (suc n) pages) ≡ take (suc n * suc limit) (row_ids rows))
  list-first_pages n pages no_ties h =
      let (rows, ranked, _) = list-page 0 (pages 0) (h 0 (omega arith)) in
      (rows, ranked, pages-take no_ties rows ranked (suc n) pages h)
