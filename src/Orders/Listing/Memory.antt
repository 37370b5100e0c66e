-- ===== src/Orders/Listing/Memory.antt =====
-- The paged query on the database in memory, which shows that its contract can be met.
use nodejs_pro_task.Base.{
  Among, ℕ, zero, suc, ◌≡◌, refl, sym, ap, ◌∙◌, inl, inr, Option-cases, false, none, some, List, [],
  ◌∷◌, map, map-take, map-drop, arith, take, drop,
}
use nodejs_pro_task.Base.Int.{ℤ, pos, negsuc}
use nodejs_pro_task.Errors.{driver, Result, ok, err, ok_injective}
use nodejs_pro_task.Schema.{Order, OrderItem}
use nodejs_pro_task.Database.Queries.{LoadedOrder, item_for}
use nodejs_pro_task.Database.Memory.{Store, tables, memory}
use nodejs_pro_task.Database.Memory.Rows.{Row, at, item_at}
use nodejs_pro_task.Orders.Listing.{PageQuery, GetMany, created_at_desc}
use nodejs_pro_task.Orders.Listing.Ranking.{Ranked}
use nodejs_pro_task.Orders.Listing.Sorting.{ranked, ranked-Known, Known-ranked, ranked-NewestFirst}
use nodejs_pro_task.Orders.Listing.Contract.{nth, shown, ids, row_ids, IsListed, Lists}

abbrev items_at : ℕ → List Row → List OrderItem
items_at j rs = elim (at j rs) [ none ↦ [] | some r ↦ r.items ]

abbrev load_row : List Row → Order → LoadedOrder
load_row rs o = shown false o (items_at o.id rs)

-- A negative LIMIT or OFFSET is refused (invalid_row_count_in_limit_clause and its like); with nothing
-- to take there is no limit.
abbrev paged : ℤ → ℤ → List LoadedOrder → Result (List LoadedOrder)
paged (pos zero) (pos s) os = ok (drop s os)
paged (pos (suc t)) (pos s) os = ok (take (suc t) (drop s os))
paged (pos t) (negsuc s) os = err (driver "2201X")
paged (negsuc t) s os = err (driver "2201W")

abbrev pub get_many : GetMany memory
get_many q d = paged q.take q.skip (map (load_row d.rows) (ranked q.filter d.rows))

nth-take :
    (n t : ℕ) (xs : List LoadedOrder) (o : LoadedOrder)
    → nth n (take t xs) ≡ some o
    → nth n xs ≡ some o
nth-take n t [] o h = h
nth-take n zero (x ∷ xs) o h = absurd (ground arith)
nth-take zero (suc t) (x ∷ xs) o h = h
nth-take (suc n) (suc t) (x ∷ xs) o h = nth-take n t xs o h

nth-drop :
    (n s : ℕ) (xs : List LoadedOrder) (o : LoadedOrder)
    → nth n (drop s xs) ≡ some o
    → (m : ℕ) × (nth m xs ≡ some o)
nth-drop n s [] o h = (n, h)
nth-drop n zero (x ∷ xs) o h = (n, h)
nth-drop n (suc s) (x ∷ xs) o h = let (m, e) = nth-drop n s xs o h in (suc m, e)

nth-paged :
    (n : ℕ) (t s : ℤ) (xs os : List LoadedOrder) (o : LoadedOrder)
    → paged t s xs ≡ ok os
    → nth n os ≡ some o
    → (m : ℕ) × (nth m xs ≡ some o)
nth-paged n (pos zero) (pos s) xs os o h e = nth-drop n s xs o (ap (nth n) (ok_injective h) ∙ e)
nth-paged n (pos (suc t)) (pos s) xs os o h e =
    nth-drop n s xs o (nth-take n (suc t) (drop s xs) o (ap (nth n) (ok_injective h) ∙ e))
nth-paged n (pos zero) (negsuc s) xs os o h e = absurd cc
nth-paged n (pos (suc t)) (negsuc s) xs os o h e = absurd cc
nth-paged n (negsuc t) s xs os o h e = absurd cc

nth-load_row :
    (n : ℕ) (rs : List Row) (rows : List Order) (o : LoadedOrder)
    → nth n (map (load_row rs) rows) ≡ some o
    → (row : Order) × Among row rows × (o ≡ load_row rs row)
nth-load_row n rs [] o h = absurd (ground arith)
nth-load_row zero rs (row ∷ rows) o h = (row, inl refl, cc)
nth-load_row (suc n) rs (row ∷ rows) o h =
    let (x, there, same) = nth-load_row n rs rows o h in (x, inr there, same)

items_at-each : (j p : ℕ) (rs : List Row) → item_for p (items_at j rs) ≡ item_at j p rs
items_at-each j p rs = elim (Option-cases (at j rs)) [
  | inl e ↦ ground arith
  | inr (r, e) ↦ ground arith
]

listed :
    (q : PageQuery) (d : Store) (os : List LoadedOrder) (n : ℕ) (o : LoadedOrder)
    → get_many q d ≡ ok os
    → nth n os ≡ some o
    → IsListed memory q.filter d o
listed q d os n o h e =
    let (m, g) =
      nth-paged n q.take q.skip (map (load_row d.rows) (ranked q.filter d.rows)) os o h e in
    let (row, there, same) = nth-load_row m d.rows (ranked q.filter d.rows) o g in
    let (_, stored, accepted) = ranked-Known q.filter d.rows row there in
    record {
      row = row;
      items = items_at row.id d.rows;
      stored = stored;
      accepted = accepted;
      loaded = same;
      each = λ p. items_at-each row.id p d.rows;
    }

ids-load_row : (rs : List Row) (rows : List Order) → ids (map (load_row rs) rows) ≡ row_ids rows
ids-load_row rs [] = refl
ids-load_row rs (row ∷ rows) = ap (λ js. row.id ∷ js) (ids-load_row rs rows)

page :
    (q : PageQuery) (d : Store) (os : List LoadedOrder) (t s : ℕ)
    → get_many q d ≡ ok os
    → q.order_by ≡ created_at_desc
    → q.take ≡ pos (suc t)
    → q.skip ≡ pos s
    → (rows : List Order) × Ranked q.filter (tables d) rows
      × (ids os ≡ take (suc t) (drop s (row_ids rows)))
page q d os t s h _ e g =
    let rows = ranked q.filter d.rows in
    let xs = map (load_row d.rows) rows in
    let same : take (suc t) (drop s xs) ≡ os =
      ok_injective ((λ i. paged (sym e i) (sym g i) xs) ∙ h) in
    (
      rows,
      record {
        newest_first = ranked-NewestFirst q.filter d.rows;
        only = λ o there.
            let (_, stored, accepted) = ranked-Known q.filter d.rows o there in (stored, accepted);
        all = Known-ranked q.filter d.rows;
      },
      ap ids (sym same)
          ∙ map-take (λ o. o.id) (suc t) (drop s xs)
          ∙ ap (take (suc t)) (map-drop (λ o. o.id) s xs ∙ ap (drop s) (ids-load_row d.rows rows)),
    )

pub get_many-Lists : Lists memory get_many
get_many-Lists = record { listed = listed; page = page }
