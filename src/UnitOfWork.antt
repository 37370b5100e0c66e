-- ===== src/UnitOfWork.antt =====
-- src/common/unit-of-work.ts: a transaction on a connection of its own, which is rolled back unless
-- it was committed, and whose connection is released at the end.
pub mod Outcome
mod Tests
use nodejs_pro_task.Base.{◌≡◌, Bool, true, false, if◌then◌else◌}
use nodejs_pro_task.Errors.{Exception, suppressed, Result, ok, err}
use nodejs_pro_task.Exec.{Exec, pure, raise, ◌>>=◌, ◌>>◌}
use nodejs_pro_task.Database.{Database}

module _ (D : Database) where
  open D use {Db}

  -- `TypeOrmTransaction`: what is committed, what the query runner's connection sees, and the flags
  -- `finished` and `runner.isReleased`.
  pub record Transaction : Type 0 where
    pub committed : Db
    pub working : Db
    pub finished : Bool
    pub released : Bool

  abbrev pub Action : Type 0 → Type 0
  Action A = Exec Transaction A

  -- A query on the transaction's connection, and one on another connection, which sees what is
  -- committed.
  abbrev pub reading : {A : Type 0} → (Db → Result A) → Action A
  reading q c = (q c.working, c)

  abbrev pub reading_committed : {A : Type 0} → (Db → Result A) → Action A
  reading_committed q c = (q c.committed, c)

  -- A statement that writes.
  abbrev pub writing : {A : Type 0} → (Db → Result (A × Db)) → Action A
  writing q c = elim (q c.working) [
    | ok (a, w) ↦ (ok a, record c { working = w })
    | err e ↦ (err e, c)
  ]

  abbrev pub storing : (Db → Result Db) → Action (Unit {0})
  storing q c = elim (q c.working) [ ok w ↦ (ok tt, record c { working = w }) | err e ↦ (err e, c) ]

  unfoldable pub create : Db → Result Transaction
  create d = elim (D.start d) [
    | ok w ↦ ok (record { committed = d; working = w; finished = false; released = false })
    | err e ↦ err e
  ]

  unfoldable pub commit : Action (Unit {0})
  commit c = if c.finished then (ok tt, c) else elim (D.commit c.working) [
    | ok d ↦ (ok tt, record c { committed = d; finished = true })
    | err e ↦ (err e, c)
  ]

  unfoldable pub rollback : Action (Unit {0})
  rollback c = if c.finished then (ok tt, c) else elim (D.rollback c.working) [
    | ok _ ↦ (ok tt, record c { working = c.committed; finished = true })
    | err e ↦ (err e, c)
  ]

  unfoldable pub dispose : Action (Unit {0})
  dispose c = if c.released then (ok tt, c) else elim (D.release c.working) [
    | ok _ ↦ (ok tt, record c { released = true })
    | err e ↦ (err e, c)
  ]

  -- `[Symbol.asyncDispose]`
  unfoldable pub async_dispose : Action (Unit {0})
  unfolding rollback dispose
  async_dispose = do rollback; dispose

  -- How a block with `await using` ends, by how its body and the disposal have ended.
  abbrev pub settle : {A : Type 0} → Result A → Result (Unit {0}) → Result A
  settle (ok a) (ok _) = ok a
  settle (ok a) (err e) = err e
  settle (err e) (ok _) = err e
  settle (err e) (err f) = err (suppressed f e)

  -- `TypeOrmUnitOfWork.transaction`: the result, and what is committed afterwards.
  unfoldable pub transaction : {A : Type 0} → Action A → Db → Result A × Db
  unfolding create
  transaction cb d = elim (create d) [
    | ok c ↦ let (r, c') = cb c in let (r', c'') = async_dispose c' in (settle r r', c''.committed)
    | err e ↦ (err e, d)
  ]
