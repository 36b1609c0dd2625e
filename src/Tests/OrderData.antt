-- ===== src/Tests/OrderData.antt =====
-- A shop, its deployment and an order in it.
use micro_mart.Shared.Int.{pos}
use micro_mart.Shared.{refl, false, true, none, some, List, [], ◌∷◌, arith, Dict}
use micro_mart.Shared.Session.{open_session}
use micro_mart.Product.Table.{Product, ProductResponse, product_response}
use micro_mart.Product.Stock.{Store}
use micro_mart.Product.Invariant.{IsStore}
use micro_mart.Order.Table.{Order, OrderDb, OrderItemRequest, OrderCreateRequest}
use micro_mart.Order.Clients.{World}
use micro_mart.Order.Placing.{new_order}
use micro_mart.Order.Rows.{Stored}
use micro_mart.Order.Created.{IsFresh}
use micro_mart.Network.{Fault, Sound, Deployment}

abbrev pub pencil : Product
pencil = record {
  id = 1;
  name = "pencil";
  description = none;
  price = 100;
  stock = 5;
  version = 1;
  is_active = true;
  created_at = 1;
  updated_at = 1;
}

abbrev pub book : Product
book = record pencil { id = 2; name = "book"; price = 900; stock = 3; version = 4 }

abbrev pub shop : Store
shop = record {
  products = pencil ∷ book ∷ [];
  next_id = 3;
  now = 10;
  redis = record { entries = []; faults = [] };
}

pub shop-IsStore : IsStore shop
shop-IsStore = record {
  unique = (refl, (refl, tt));
  rows = (
    record { numbered = omega arith; versioned = omega arith; priced = omega arith },
    (record { numbered = omega arith; versioned = omega arith; priced = omega arith }, tt),
  );
}

-- The fifth request is the payment; `unlucky` fails it.
abbrev pub lucky : Deployment
lucky = record {
  settings = record {
    internal_service_token = "token";
    product_cache_ttl = 60;
    max_page_size = 100;
  };
  payment_token = "token";
  order_token = "token";
  fault = λ n. Fault.delivered;
  reply_lost = λ n. false;
  chance = λ n. record { chaos_failure_rate = 0; draw = 40; transaction = "tx"; processed_at = 9 };
}

abbrev pub unlucky : Deployment
unlucky = record lucky {
  chance =
      λ n. record { chaos_failure_rate = 100; draw = 40; transaction = "tx"; processed_at = 9 };
}

abbrev pub services : Sound
services = record {
  services = record {
    store = shop;
    payments = record { payments = []; refunds = []; next_payment = 1; next_refund = 1 };
    calls = 0;
  };
  sound = shop-IsStore;
}

abbrev pub no_orders : OrderDb
no_orders = record { orders = []; items = []; next_order = 1; next_item = 1 }

abbrev pub world : World Sound
world = record {
  remote = services;
  session = open_session no_orders;
  trace = [];
  nats = some (record { is_closed = false; raises = false });
  published = [];
  now = 20;
}

abbrev pub items : List OrderItemRequest
items = record { product_id = 1; quantity = 2 } ∷ record { product_id = 2; quantity = 1 } ∷ []

abbrev pub basket : OrderCreateRequest
basket = record { items = items }

pub no_orders-IsFresh : IsFresh no_orders
no_orders-IsFresh = record { no_order = refl; no_items = refl }

-- The order as it is after the first commit.
abbrev pub placed : Order
placed = new_order 1 (pos 3) 1100 20

abbrev pub with_order : OrderDb
with_order = record no_orders { orders = placed ∷ []; next_order = 2 }

abbrev pub ordered_world : World Sound
ordered_world = record world { session = open_session with_order }

pub placed-Stored : Stored with_order placed ordered_world
placed-Stored = record { found = refl; clean = refl; others = λ j n. refl; same_items = refl }

abbrev pub read_products : Dict ProductResponse
read_products = (1, product_response pencil) ∷ (2, product_response book) ∷ []
