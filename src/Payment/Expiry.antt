-- ===== src/Payment/Expiry.antt =====
-- src/payment/checkout-expiry.service.ts.
use laicos_backend.Prelude.{
  ℕ, ◌+◌, Bool, true, false, ◌&&◌, ◌||◌, not, none, some, List, [], ◌∷◌, leb, ltb, take,
  if◌then◌else◌,
}
use laicos_backend.Prelude.Table.{find, find_many, sort_by}
use laicos_backend.Schema.{
  Db, ok, err, Tx, ◌>>◌, pure, modify_db, AuditActorType, Checkout, CheckoutStatus, is_unpaid,
  checkout_keyed,
}
use laicos_backend.Cart.Checkout.{release_checkout, record_request}

abbrev pub sweep_batch : ℕ
sweep_batch = 100

-- What `expire` does once it has re-read an overdue checkout under the lock.
unfoldable pub expire_found : ℕ → Checkout → Tx Bool
expire_found now checkout = do
  release_checkout checkout.id CheckoutStatus.expired "Payment not received"
  modify_db (
      record_request now AuditActorType.system "Checkout expired" "Payment not received"
        checkout.sourcing_request_id)
  pure true

-- `expire`.
unfoldable pub expire : ℕ → ℕ → Tx Bool
unfolding expire_found
expire now id db = elim (find id db.checkouts) [
  | none ↦ ok (false, db)
  | some checkout ↦
      if not (is_unpaid checkout.status) || leb now checkout.expires_at
      then ok (false, db)
      else expire_found now checkout db
]

-- The scan of `expireOverdue`.
abbrev pub overdue : ℕ → Db → List Checkout
overdue now db = take sweep_batch (
    sort_by (λ c. c.expires_at)
      (find_many (λ c. is_unpaid c.status && ltb c.expires_at now) db.checkouts))

-- Its loop: each checkout in a transaction of its own; one that throws is logged and left.
unfoldable pub expire_each : ℕ → List Checkout → Db → ℕ × Db
expire_each now [] db = (0, db)
expire_each now (c ∷ cs) db = elim (expire now c.id db) [
  | ok (expired, db') ↦
      let (n, db'') = expire_each now cs db' in (if expired then n + 1 else n, db'')
  | err _ ↦ expire_each now cs db
]

-- `expireOverdue`: how many it released, and what the database holds then.
unfoldable pub expire_overdue : ℕ → Db → ℕ × Db
expire_overdue now db = expire_each now (overdue now db) db
