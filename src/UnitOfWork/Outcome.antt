-- ===== src/UnitOfWork/Outcome.antt =====
-- How a unit of work ends (src/common/unit-of-work.ts).
use nodejs_pro_task.Base.{◌≡◌, true, false, arith, ap, ◌∙◌}
use nodejs_pro_task.Errors.{Exception, Result, ok, err}
use nodejs_pro_task.Database.{Database}
use nodejs_pro_task.Database.Contract.{IsUp}
use nodejs_pro_task.UnitOfWork.{Transaction, Action, create, async_dispose, settle, transaction}

module _ (D : Database) where
  pub committed-async_dispose : (c : Transaction D) → (async_dispose D c).1.committed ≡ c.committed
  unfolding async_dispose
  committed-async_dispose c = ground arith

  -- On a database that is up, the end of the block commits nothing and leaves the transaction
  -- finished and its connection released, whatever the body did.
  pub async_dispose_finishes :
      (c : Transaction D)
      → IsUp D
      → let (r, c') = async_dispose D c in
        (r ≡ ok tt) × (c'.finished ≡ true) × (c'.released ≡ true) × (c'.committed ≡ c.committed)
  unfolding async_dispose
  async_dispose_finishes c up = grind (arith, up.rolls_back, up.releases)

  abbrev pub opened : D.Db → D.Db → Transaction D
  opened d w = record { committed = d; working = w; finished = false; released = false }

  -- A unit of work whose transaction cannot begin, and one whose body runs.
  pub transaction-no_start :
      {A : Type 0} (cb : Action D A) (d : D.Db) (e : Exception)
      → D.start d ≡ err e
      → transaction D cb d ≡ (err e, d)
  unfolding transaction
  transaction-no_start cb d e s = rw (s, transaction, create)

  pub transaction-start :
      {A : Type 0} (cb : Action D A) (d w : D.Db)
      → D.start d ≡ ok w
      → let (r, c) = cb (opened d w) in
        transaction D cb d ≡ (settle D r (async_dispose D c).0, c.committed)
  unfolding transaction
  transaction-start {A} cb d w s =
      began ∙ ap (λ (x : D.Db). (settle D r (async_dispose D c).0, x)) (committed-async_dispose c)
    where
      r : Result A
      r = (cb (opened d w)).0

      c : Transaction D
      c = (cb (opened d w)).1

      began :
          transaction D cb d ≡ (settle D r (async_dispose D c).0, (async_dispose D c).1.committed)
      began = rw (s, transaction, create)
