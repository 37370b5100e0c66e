-- ===== src/Orders/Samples.antt =====
-- A shop with two products, and what is asked of it in the tests of src/orders.
use nodejs_pro_task.Base.{arith, inl, inr, Bool-cases, ◌==◌, some, List, [], ◌∷◌, ◌≢◌, none, []}
use nodejs_pro_task.Base.Int.{pos}
use nodejs_pro_task.Schema.{Product, User, user}
use nodejs_pro_task.Database.Contract.{HasKey}
use nodejs_pro_task.Database.Memory.{tables, memory}
use nodejs_pro_task.RabbitMq.Wire.{wire}
use nodejs_pro_task.Orders.Service.{World}
use nodejs_pro_task.Orders.Service.Reservation.{OrderItemDto, asked_qty}
use nodejs_pro_task.Orders.Service.Placement.{CanPlace}

abbrev pub alice : User
alice = record {
  id = 1;
  email = "alice@example.com";
  password = "hash";
  role = user;
  created_at = 1;
  updated_at = 1;
}

abbrev pub laptop : Product
laptop = record {
  id = 10;
  title = "Laptop";
  description = "High performance laptop";
  stock = pos 10;
  price = "1200";
  created_at = 1;
  updated_at = 1;
}

abbrev pub mouse : Product
mouse = record {
  id = 11;
  title = "Mouse";
  description = "Wireless mouse";
  stock = pos 2;
  price = "25";
  created_at = 1;
  updated_at = 1;
}

abbrev pub shop : World memory wire
shop = record {
  db = record {
    clock = 5;
    users = alice ∷ [];
    products = laptop ∷ mouse ∷ [];
    rows = [];
    processed = [];
  };
  rabbitmq = some (record { published = []; acked = []; rejected = [] });
}

abbrev pub two_mice : List OrderItemDto
two_mice = record { id = 11; qty = pos 2 } ∷ []

abbrev pub three_mice : List OrderItemDto
three_mice = record { id = 10; qty = pos 1 } ∷ record { id = 11; qty = pos 3 } ∷ []

abbrev pub twice_mice : List OrderItemDto
twice_mice = record { id = 11; qty = pos 1 } ∷ record { id = 11; qty = pos 1 } ∷ []

pub alice_known : (tables shop.db).users 1 ≢ none
alice_known h = cc

pub asks_two : two_mice ≢ []
asks_two h = cc

pub no_keys : ¬ HasKey memory (tables shop.db) 1 99
no_keys (o, stored, u, k) = cc

pub two_mice_possible : CanPlace two_mice (tables shop.db)
unfolding asked_qty
two_mice_possible j q h = elim (Bool-cases (11 == j)) [
  | inl hit ↦ (mouse, ground arith, ground arith)
  | inr miss ↦ absurd (ground arith)
]
