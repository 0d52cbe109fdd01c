-- ===== src/Produce.antt =====
-- src/produce/utils/produce-status.ts; the services are in Produce/Service.
pub mod Service
pub mod Stock
pub mod Methods
use laicos_backend.Prelude.{
  ℕ, ◌≡◌, refl, Bool, true, ◌&&◌, ◌||◌, not, arith, leb, ltb, ◌==◌, if◌then◌else◌,
}
use laicos_backend.Schema.{Produce, ProduceStatus, is_published, is_sold_out}

-- `deriveProduceStatus`. The quantities are not negative, so `<= 0` is `=== 0`.
unfoldable pub derive_produce_status : ProduceStatus → ℕ → ℕ → ProduceStatus
derive_produce_status status actual_quantity floating_quantity =
    if not (is_published status) && not (is_sold_out status)
    then status
    else if leb actual_quantity 0 || leb floating_quantity 0
    then ProduceStatus.sold_out
    else ProduceStatus.published

-- Whether a status agrees with the stock: on sale with some, sold out with none.
abbrev pub agrees : ProduceStatus → ℕ → ℕ → Bool
agrees ProduceStatus.published actual_quantity floating_quantity =
    ltb 0 actual_quantity && ltb 0 floating_quantity
agrees ProduceStatus.sold_out actual_quantity floating_quantity =
    actual_quantity == 0 || floating_quantity == 0
agrees _ actual_quantity floating_quantity = true

-- Whether a listing's status says what its stock says.
abbrev pub IsSynced : Produce → Type 0
IsSynced p = agrees p.status p.actual_quantity p.floating_quantity ≡ true

-- The derived status agrees with the stock, whatever the quantities.
pub derive_produce_status-agrees :
    (s : ProduceStatus) (a f : ℕ) → agrees (derive_produce_status s a f) a f ≡ true
unfolding derive_produce_status
derive_produce_status-agrees ProduceStatus.draft a f = refl
derive_produce_status-agrees ProduceStatus.published a f = ground arith
derive_produce_status-agrees ProduceStatus.sold_out a f = ground arith
derive_produce_status-agrees ProduceStatus.disabled a f = refl
