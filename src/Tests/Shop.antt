-- ===== src/Tests/Shop.antt =====
-- One verified farm with one listing of ten units, of which an order awaiting confirmation holds
-- three and an unpaid checkout two.
use laicos_backend.Prelude.{
  ℕ, ◌*◌, inl, inr, true, false, none, some, [], ◌∷◌, arith, ◌==◌, Bool-cases,
}
use laicos_backend.Schema.{
  Db, User, Role, Farm, FarmVerificationStatus, Produce, ProduceStatus, Order, OrderStatus, Address,
  Checkout, CheckoutStatus, CartItem, DeliverySnapshot, produce_keyed,
}
use laicos_backend.Order.Stock.{IsStocked}

abbrev pub farmer : User
farmer = record { id = 7; role = Role.farmer }

abbrev pub shopper : User
shopper = record { id = 8; role = Role.buyer }

abbrev pub farm : Farm
farm = record {
  id = 3;
  owner_id = 4;
  owner_user_id = 7;
  farm_code = "FRM-1";
  name = "Hill";
  verification_status = FarmVerificationStatus.verified;
  cluster_agent_id = some 6;
  is_clustered = true;
  state_id = 9;
  lga_id = 5;
  location = "Mile 2";
  size = "2.5";
  unit = "ha";
  main_produce = "Maize";
  is_exporting = false;
  referral_agent_id = none;
  ownership_document_key = some "deed";
  chief_confirmation_key = none;
}

abbrev pub maize : Produce
maize = record {
  id = 1;
  farm_id = 3;
  name = "Maize";
  actual_quantity = 10;
  floating_quantity = 5;
  unit = "kg";
  price_per_unit = 20000;
  status = ProduceStatus.published;
}

abbrev pub order_of : ℕ → ℕ → OrderStatus → Order
order_of id quantity status = record {
  id = id;
  order_number = "ORD";
  produce_id = 1;
  farm_id = 3;
  buyer_id = 2;
  quantity = quantity;
  total_price = 20000 * quantity;
  status = status;
  produce_name = "Maize";
  checkout_id = none;
  cancellation_reason = none;
  fulfilled_at = none;
}

abbrev delivery : DeliverySnapshot
delivery = record {
  delivery_date = 100;
  delivery_label = "Home";
  delivery_street = "1 Marina";
  delivery_state = "Lagos";
  delivery_lga = "Eti-Osa";
  delivery_contact_name = none;
  delivery_contact_phone = none;
}

abbrev pub open_order : Order
open_order = record (order_of 12 2 OrderStatus.awaiting_payment) { checkout_id = some 21 }

abbrev pub open_checkout : Checkout
open_checkout = record {
  id = 21;
  buyer_id = 2;
  idempotency_key = "first";
  status = CheckoutStatus.awaiting_payment;
  subtotal = 40000;
  delivery_fee = 15000;
  service_fee = 2000;
  total_price = 57000;
  expires_at = 500;
  paid_at = none;
  sourcing_request_id = none;
  delivery = delivery;
}

abbrev home : Address
home = record {
  id = 31;
  buyer_id = 2;
  label = "Home";
  street = "1 Marina";
  state = "Lagos";
  lga = "Eti-Osa";
  contact_name = none;
  contact_phone = none;
}

abbrev in_cart : CartItem
in_cart = record { id = 41; buyer_id = 2; produce_id = 1; quantity = 4 }

abbrev pub shop : Db
shop = record {
  buyers = record { id = 2; user_id = 8 } ∷ [];
  lgas = record { id = 5; state_id = 9 } ∷ record { id = 15; state_id = 9 } ∷ [];
  farms = farm ∷ [];
  produces = maize ∷ [];
  orders = order_of 11 3 OrderStatus.pending ∷ open_order ∷ [];
  checklists = [];
  handovers = [];
  proofs = [];
  addresses = home ∷ [];
  checkouts = open_checkout ∷ [];
  cart_items = in_cart ∷ [];
  cart_merges = [];
  payments = [];
  refunds = [];
  bank_accounts = [];
  payouts = [];
  payout_items = [];
  requests = [];
  allocations = [];
  agents = [];
  farmers = [];
  rounds = [];
  checks = [];
  evidence = [];
  declines = [];
  audit_events = [];
  order_numbers = λ _. "ORD";
  payment_references = λ _. "PAY";
  payout_references = λ _. "PO";
  request_numbers = λ _. "REQ";
  farm_codes = λ _. "LF";
  checkout_numbers = λ _. "CHK";
  fx_rates = [];
  next_id = 50;
}

pub shop-IsStocked : IsStocked [] shop
shop-IsStocked = record {
  balanced =
      λ i p e. elim (Bool-cases (1 == i)) [ inl here ↦ ground arith | inr other ↦ ground arith ];
  synced =
      λ i p e. elim (Bool-cases (1 == i)) [ inl here ↦ ground arith | inr other ↦ ground arith ];
}
