-- ===== src/UnitOfWork/Tests.antt =====
-- A unit of work at a concrete input.
use nodejs_pro_task.Base.{◌≡◌, true, false, [], ◌∷◌}
use nodejs_pro_task.Errors.{ok}
use nodejs_pro_task.Database.Memory.{Store, memory}
use nodejs_pro_task.Database.Memory.Live.{memory-IsUp}
use nodejs_pro_task.UnitOfWork.{Transaction, async_dispose}
use nodejs_pro_task.UnitOfWork.Outcome.{async_dispose_finishes}

abbrev store : Store
store = record { clock = 5; users = []; products = []; rows = []; processed = [] }

abbrev written : Store
written = record {
  clock = 5;
  users = [];
  products = [];
  rows = [];
  processed = record { id = 0; message_id = 3; handler = "h"; processed_at = 5 } ∷ [];
}

abbrev open_one : Transaction memory
open_one = record { committed = store; working = written; finished = false; released = false }

async_dispose_finishes_example :
    let (r, c') = async_dispose memory open_one in
    (r ≡ ok tt) × (c'.finished ≡ true) × (c'.released ≡ true) × (c'.committed ≡ store)
async_dispose_finishes_example = async_dispose_finishes memory open_one memory-IsUp
