-- ===== src/Seed/Guarantees.antt =====
-- The script of src/seed/index.ts, run once and twice.
use nodejs_pro_task.Base.{ℕ, ◌≡◌, sym, ap, ◌∙◌, subst, ◌⊎◌, inl, inr, arith, Bool, true}
use nodejs_pro_task.Errors.{Result, ok, err, Result-cases}
use nodejs_pro_task.Exec.{Exec, continue}
use nodejs_pro_task.Seed.{
  Store, DataSource, ensure_initialized, in_transaction, finish, run_seed, seed, seed_rows,
}
use nodejs_pro_task.Seed.Contract.{Laws}
use nodejs_pro_task.Seed.Repeated.{Filled, Seeded, reads_seed}
use nodejs_pro_task.Seed.Outcome.{seeds}
use nodejs_pro_task.Seed.Sown.{Sown, sows}

module _ (S : Store) where
  open S use {Db, view}

  -- The source that a call is given, and the one it leaves, after a run of the transaction.
  abbrev Leaves : Exec Db (Unit {0}) → DataSource S → Result (Unit {0}) × DataSource S → Type 0
  Leaves body s (r, s') =
      ((s'.db ≡ s.db) × ¬ (r ≡ ok tt))
      ⊎ ((w : Db) × (w' : Db) × (S.start s.db ≡ ok w)
          × (body w ≡ (ok tt, w'))
          × (S.commit w' ≡ ok s'.db))

  finish-db :
      (given : Bool) (w : Db) (r : Result (Unit {0})) (s : DataSource S)
      → (finish S given w r s).1.db ≡ s.db
  unfolding finish
  finish-db given w r s = ground arith

  finish-ok :
      (given : Bool) (w : Db) (r : Result (Unit {0})) (s : DataSource S)
      → s.is_initialized ≡ true
      → (finish S given w r s).0 ≡ ok tt
      → (r ≡ ok tt) × ((finish S given w r s).1.is_initialized ≡ given)
  unfolding finish
  finish-ok given w r s live h = (ground arith, ground arith)

  -- The body has returned, and what it has written is committed.
  abbrev Committed : Exec Db (Unit {0}) → Db → DataSource S → Type 0
  Committed body w s =
      (w' : Db) × (d : Db) × (body w ≡ (ok tt, w')) × (S.commit w' ≡ ok d) × (s.db ≡ d)

  in_transaction_cases :
      (body : Exec Db (Unit {0})) (w : Db) (s : DataSource S)
      → let (r, s') = in_transaction S body w s in
        (s'.is_initialized ≡ s.is_initialized)
        × (((s'.db ≡ s.db) × ¬ (r ≡ ok tt)) ⊎ Committed body w s')
  unfolding in_transaction
  in_transaction_cases body w s = elim (Result-cases (body w).0) [
    | inr (e, f) ↦ (ground arith, inl (ground arith, λ h. ground arith))
    | inl (u, f) ↦ elim (Result-cases (S.commit (body w).1)) [
      | inr (e, g) ↦ (ground arith, inl (ground arith, λ h. ground arith))
      | inl (d, g) ↦ (ground arith, inr ((body w).1, d, (λ i. (f i, (body w).1)), g, ground arith))
    ]
  ]

  run_seed-Leaves :
      (given : Bool) (body : Exec Db (Unit {0})) (s : DataSource S)
      → s.is_initialized ≡ true
      → let (r, s') = run_seed S given body s in
        Leaves body s (r, s') × (r ≡ ok tt → s'.is_initialized ≡ given)
  unfolding run_seed
  run_seed-Leaves given body s live = elim (Result-cases (S.start s.db)) [
    | inr (e, f) ↦ (inl (ground arith, λ h. ground arith), λ h. absurd (ground arith))
    | inl (w, f) ↦
        let (r, s₁) = in_transaction S body w s in
        let (same, outcome) = in_transaction_cases body w s in
        let kept = finish-db given w r s₁ in
        let returns = finish-ok given w r s₁ (same ∙ live) in
        let step : run_seed S given body s ≡ finish S given w r s₁ = ground arith in
        subst (λ o. Leaves body s o × (o.0 ≡ ok tt → o.1.is_initialized ≡ given)) (sym step)
          (
            elim outcome [
              | inl (unchanged, fails) ↦ inl (kept ∙ unchanged, λ h. fails (returns h).0)
              | inr (w', d, runs, commits, stored) ↦
                  inr (w, w', f, runs, commits ∙ ap ok (sym (kept ∙ stored)))
            ],
            λ h. (returns h).1,
          )
  ]

  initialised :
      (given : Bool) (s : DataSource S)
      → let (r, s') = ensure_initialized S given s in
        (s'.db ≡ s.db) × (r ≡ ok tt → s'.is_initialized ≡ true)
  unfolding ensure_initialized
  initialised given s = (ground arith, λ h. ground arith)

  seed-Leaves :
      (given : Bool) (salt salt' key : ℕ) (s : DataSource S)
      → let (r, s') = seed S given salt salt' key s in
        Leaves (seed_rows S salt salt' key) s (r, s') × (r ≡ ok tt → s'.is_initialized ≡ given)
  unfolding seed
  seed-Leaves given salt salt' key s =
      let body = seed_rows S salt salt' key in
      let (r, s₁) = ensure_initialized S given s in
      let (same, live) = initialised given s in
      elim (Result-cases r) [
        | inr (e, f) ↦
            let step : seed S given salt salt' key s ≡ (err e, s₁) =
              λ i. continue (f i) (λ _. run_seed S given body) s₁ in
            subst (λ o. Leaves body s o × (o.0 ≡ ok tt → o.1.is_initialized ≡ given)) (sym step)
              (inl (same, λ h. ground arith), λ h. absurd (ground arith))
        | inl (u, f) ↦
            let step : seed S given salt salt' key s ≡ run_seed S given body s₁ =
              λ i. continue (f i) (λ _. run_seed S given body) s₁ in
            let (leaves, ends) = run_seed-Leaves given body s₁ (live f) in
            subst (λ o. Leaves body s o × (o.0 ≡ ok tt → o.1.is_initialized ≡ given)) (sym step)
              (
                elim leaves [
                  | inl (kept, fails) ↦ inl (kept ∙ same, fails)
                  | inr (w, w', starts, runs, commits) ↦
                      inr (w, w', ap S.start (sym same) ∙ starts, runs, commits)
                ],
                ends,
              )
      ]

  module _ (laws : Laws S) where
    -- If every order with the status created has an item, then however the seeding ends, the
    -- tables are as before, or there are a row with the address of the administrator, one with
    -- that of the user, and one with the title of each of the three products, each row with the
    -- address of the user has an order with the status created, every order with this status has
    -- an item, and of the rows that are new each user has the address, the role and a hash of the
    -- password of one of the two accounts, each product is one of the three in title, description,
    -- stock and price, and each order is one with the status created of a row with the address of
    -- the user; and if it returns, the latter holds, and the data source is initialised exactly if
    -- it was given.
    pub seed_all_or_nothing :
        (given : Bool) (salt salt' key : ℕ) (s : DataSource S)
        → Filled (view s.db)
        → let (r, s') = seed S given salt salt' key s in
          ((view s'.db ≡ view s.db)
            ⊎ (Seeded (view s'.db) × Sown S salt salt' (view s.db) (view s'.db)))
          × (r ≡ ok tt
              → Seeded (view s'.db)
                × Sown S salt salt' (view s.db) (view s'.db)
                × (s'.is_initialized ≡ given))
    seed_all_or_nothing given salt salt' key s filled =
        let (leaves, ends) = seed-Leaves given salt salt' key s in
        elim leaves [
          | inl (kept, fails) ↦ (inl (ap view kept), λ h. absurd (fails h))
          | inr (w, w', starts, runs, commits) ↦
              let begins = laws.start_lem s.db w starts in
              let made = seeds S laws salt salt' key w w' (subst Filled (sym begins) filled) runs in
              let ended = sym (laws.commit_lem w' (seed S given salt salt' key s).1.db commits) in
              let left = subst Seeded ended made in
              let sown = subst (Sown S salt salt' (view s.db)) ended (
                subst (λ t. Sown S salt salt' t (view w')) begins
                  (sows S laws salt salt' key w w' runs)) in
              (inr (left, sown), λ h. (left, sown, ends h))
        ]

    seed_unchanged :
        (given : Bool) (salt salt' key : ℕ) (s : DataSource S)
        → Seeded (view s.db)
        → view (seed S given salt salt' key s).1.db ≡ view s.db
    seed_unchanged given salt salt' key s seeded = elim (seed-Leaves given salt salt' key s).0 [
      | inl (kept, fails) ↦ ap view kept
      | inr (w, w', starts, runs, commits) ↦
          let begins = laws.start_lem s.db w starts in
          let (reads, _) = reads_seed S laws w salt salt' key (subst Seeded (sym begins) seeded) in
          laws.commit_lem w' (seed S given salt salt' key s).1.db commits
          ∙ ap view (sym (λ i. (runs i).1) ∙ reads)
          ∙ begins
    ]

    -- If every order with the status created has an item and the seeding returns, then seeding
    -- again leaves the tables as they are, however it ends and whatever random values it draws.
    pub seed_again :
        (given given' : Bool) (salt salt' key more more' other : ℕ) (s s' : DataSource S)
        → Filled (view s.db)
        → seed S given salt salt' key s ≡ (ok tt, s')
        → view (seed S given' more more' other s').1.db ≡ view s'.db
    seed_again given given' salt salt' key more more' other s s' filled h =
        let (_, returned) = seed_all_or_nothing given salt salt' key s filled in
        let (seeded, _, _) = returned (λ i. (h i).0) in
        seed_unchanged given' more more' other s'
          (subst (λ x. Seeded (view x.db)) (λ i. (h i).1) seeded)
