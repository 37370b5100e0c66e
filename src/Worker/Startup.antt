-- ===== src/Worker/Startup.antt =====
-- src/orders/orders-worker.service.ts: the configuration of the worker (getConfig) and the start of
-- its consumer (onApplicationBootstrap).
use Prim.Native.String.{[], ◌∷◌}
use nodejs_pro_task.Base.{ℕ, String, ◌≡◌, refl, Bool, Option, some, arith, if◌then◌else◌}
use nodejs_pro_task.Errors.{Result, ok, err}
use nodejs_pro_task.Exec.{Exec, lift, ◌>>=◌}
use nodejs_pro_task.Utils.{parse_boolean}
use nodejs_pro_task.Utils.Spelling.{Spells, words, parse_boolean-Spells}
use nodejs_pro_task.RabbitMq.Connection.{Environment, or_text, Library, Session, consume}
use nodejs_pro_task.Worker.{Config}

-- Without the delay of a retry. `number` is `Number`, of a text that denotes a natural number or none.
unfoldable pub get_config : (String → Option ℕ) → Environment → Result Config
get_config number env = elim (parse_boolean (or_text (env "WORKER_ENABLE") "false")) [
  | err e ↦ err e
  | ok enabled ↦ ok (record {
    enable_worker = enabled;
    max_retries = number (or_text (env "WORKER_RETRIES") "3");
  })
]

unfoldable pub on_application_bootstrap :
    (L : Library) → (String → Option ℕ) → Environment → Exec (Session L) (Unit {0})
on_application_bootstrap L number env = do
  config ← lift (get_config number env)
  if config.enable_worker then consume L "orders.process" else (λ s. (ok tt, s))

-- A text that spells a word has characters.
or_text-Spells :
    (value : String) (b : Bool) (t : String)
    → Spells (words b) value
    → or_text (some value) t ≡ value
unfolding parse_boolean
or_text-Spells (c ∷ value) b t p = refl
or_text-Spells [] b t p = let reads = (parse_boolean-Spells [] b).0 p in absurd (ground arith)

-- When WORKER_ENABLE is a text that spells a word for a boolean, in any case and with spaces
-- around it, the start of the worker registers its consumer of orders.process if the word stands
-- for true, and does nothing if it stands for false.
pub on_application_bootstrap-consumes :
    (L : Library) (number : String → Option ℕ) (env : Environment) (value : String) (b : Bool)
    (s : Session L)
    → env "WORKER_ENABLE" ≡ some value
    → Spells (words b) value
    → on_application_bootstrap L number env s
      ≡ (if b then consume L "orders.process" s else (ok tt, s))
unfolding on_application_bootstrap get_config
on_application_bootstrap-consumes L number env value b s e p =
    let reads = (parse_boolean-Spells value b).0 p in
    let text = or_text-Spells value b "false" p in ground arith
