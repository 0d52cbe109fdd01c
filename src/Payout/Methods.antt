-- ===== src/Payout/Methods.antt =====
-- What `PayoutService` promises (src/payout/payout.service.ts).
use Prim.Native.String.{String}
use laicos_backend.Prelude.{
  ℕ, ◌≡◌, refl, sym, inl, inr, some, List, [], ◌∷◌, Bool-cases, Option-cases,
}
use mathlib.Core.Path.{subst}
use laicos_backend.Prelude.Table.{find, sort_by, find-key}
use laicos_backend.Prelude.Every.{Distinct}
use laicos_backend.Schema.{Db, ok, Payout, payout_keyed, order_keyed}
use laicos_backend.Payout.Service.{
  Batch, TransferReply, TransferResult, Outcome, approve, send, send_created, ids_of, is_transition,
  put_settled, audit_payout, apply_transfer_result,
}
use laicos_backend.Payout.Approve.{
  IsPayable, approve_each-Commits, send-IsPaidOutOnce, put_settled-IsPaidOutOnce,
  put_settled-IsExclusive,
}
use laicos_backend.Payout.Exclusive.{send-IsExclusive}
use laicos_backend.Payout.Eligibility.{fully_refunded}

orders-send :
    (reply : TransferReply) (ids : List ℕ) (db : Db) → (send reply ids db).orders ≡ db.orders
unfolding send
orders-send (TransferReply.queued codes) ids db = refl
orders-send (TransferReply.refused message) ids db = refl
orders-send (TransferReply.unknown message) ids db = refl

send_created-IsPayable :
    (reply : TransferReply) (batch : Batch) (db : Db)
    → IsPayable db
    → IsPayable (send_created reply batch db)
send_created-IsPayable reply batch db h = at batch.created
  where
    at :
        (created : List Payout)
        → IsPayable
            (elim created as (λ _. Db) [ [] ↦ db | p ∷ ps ↦ send reply (ids_of batch.created) db ])
    at [] = h
    at (p ∷ ps) = (
      subst Distinct (sym (orders-send reply (ids_of batch.created) db)) h.0,
      send-IsPaidOutOnce reply (ids_of batch.created) db h.1,
      send-IsExclusive reply (ids_of batch.created) db h.2,
    )

-- Where order ids are distinct, no order is in two live payouts, payout items mirror their
-- payouts, ids are handed out upwards and no order of a live payout was refunded in full,
-- approving payouts answers with a batch whatever Paystack replies: the unique index never trips.
-- All of these conditions hold again afterwards.
pub approve_succeeds :
    (now hold_hours admin_id : ℕ) (farmer_ids : List ℕ) (reply : TransferReply) (db : Db)
    → IsPayable db
    → (batch : Batch) × ((approve now hold_hours admin_id farmer_ids reply db).0 ≡ ok batch)
      × IsPayable (approve now hold_hours admin_id farmer_ids reply db).1
unfolding approve
approve_succeeds now hold_hours admin_id farmer_ids reply db h =
    let (batch, (db', run, kept)) =
      approve_each-Commits now hold_hours admin_id (sort_by (λ i. i) farmer_ids) db h in
    (batch, rw (run, approve) refl, rw (run, approve) (send_created-IsPayable reply batch db' kept))

audit_payout-IsPayable :
    (to_fixed : ℕ → String) (result : TransferResult) (p : Payout) (db : Db)
    → IsPayable db
    → IsPayable (audit_payout to_fixed result p db)
unfolding fully_refunded
audit_payout-IsPayable to_fixed result p db h = at result.outcome
  where
    at : (o : Outcome) → IsPayable (audit_payout to_fixed (record result { outcome = o }) p db)
    at Outcome.success =
        (h.0, record { once = h.1.once; mirrored = h.1.mirrored; numbered = h.1.numbered }, h.2)
    at Outcome.failed = h
    at Outcome.reversed =
        (h.0, record { once = h.1.once; mirrored = h.1.mirrored; numbered = h.1.numbered }, h.2)

-- A transfer result from the webhook, on every branch, keeps the payout conditions: distinct order
-- ids, no order in two live payouts, payout items that mirror their payouts, ids handed out
-- upwards, and no order of a live payout refunded in full.
pub apply_transfer_result-IsPayable :
    (to_fixed : ℕ → String) (now : ℕ) (result : TransferResult) (db : Db)
    → IsPayable db
    → IsPayable (apply_transfer_result to_fixed now result db)
unfolding apply_transfer_result
apply_transfer_result-IsPayable to_fixed now result db h =
    elim (Option-cases (find result.reference db.payouts)) [
      | inl missing ↦ rw (missing, apply_transfer_result) h
      | inr (p, found) ↦
          rw (found, apply_transfer_result)
            (elim (Bool-cases (is_transition p.status result.outcome)) [
              | inr refused ↦ rw refused h
              | inl allowed ↦
                  let at_p : find p.id db.payouts ≡ some p =
                    subst (λ i. find i db.payouts ≡ some p)
                      (sym (find-key result.reference db.payouts p found)) found in
                  rw allowed (
                    audit_payout-IsPayable to_fixed result p (put_settled now result p db) (
                      h.0,
                      put_settled-IsPaidOutOnce now result p db at_p allowed h.1,
                      put_settled-IsExclusive now result p db at_p allowed h.1 h.2,
                    ))
            ])
    ]
