-- ===== src/Seed/Tests.antt =====
-- The script on an empty database in memory.
use nodejs_pro_task.Base.{◌≡◌, refl, ◌⊎◌, true, false, []}
use nodejs_pro_task.Errors.{ok}
use nodejs_pro_task.Seed.{
  DataSource, seed, seed_rows, ensure_user, ensure_product, ensure_products, ensure_order,
  ensure_items, create_items, create_account,
}
use nodejs_pro_task.Seed.Repeated.{Filled, Seeded}
use nodejs_pro_task.Seed.Sown.{Sown}
use nodejs_pro_task.Seed.Guarantees.{seed_all_or_nothing, seed_again}
use nodejs_pro_task.Seed.Memory.{memory, memory-Laws}

abbrev nothing : DataSource memory
nothing = record {
  db = record {
    rows = record { users = []; products = []; orders = []; items = [] };
    unique = λ u v a b e. absurd a;
  };
  is_initialized = false;
}

nothing-Filled : Filled nothing.db.rows
nothing-Filled o there = absurd there

abbrev once : DataSource memory
once = (seed memory true 1 2 3 nothing).1

seed_all_or_nothing_example :
    ((once.db.rows ≡ nothing.db.rows)
      ⊎ (Seeded once.db.rows × Sown memory 1 2 nothing.db.rows once.db.rows))
    × ((seed memory true 1 2 3 nothing).0 ≡ ok tt
        → Seeded once.db.rows
          × Sown memory 1 2 nothing.db.rows once.db.rows
          × (once.is_initialized ≡ true))
seed_all_or_nothing_example =
    seed_all_or_nothing memory memory-Laws true 1 2 3 nothing nothing-Filled

runs : seed memory true 1 2 3 nothing ≡ (ok tt, once)
unfolding seed seed_rows ensure_user ensure_products ensure_product ensure_order ensure_items
    create_items create_account
runs = refl

seed_again_example : (seed memory false 4 5 6 once).1.db.rows ≡ once.db.rows
seed_again_example =
    seed_again memory memory-Laws true false 1 2 3 4 5 6 nothing once nothing-Filled runs
