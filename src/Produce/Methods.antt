-- ===== src/Produce/Methods.antt =====
-- The methods that write listings, and the stock invariant across all of them.
use laicos_backend.Prelude.{ℕ, inl, inr, [], ◌==◌, Bool-cases, Option-cases, ◌&&◌}
use laicos_backend.Prelude.Table.{find, find_first}
use laicos_backend.Prelude.Every.{Distinct}
use laicos_backend.Schema.{
  Db, transaction, User, order_keyed, farm_keyed, produce_keyed, is_disabled,
}
use laicos_backend.Order.Stock.{IsStocked}
use laicos_backend.Produce.Service
use laicos_backend.Produce.Service.{
  CreateProduceDto, UpdateProduceDto, create_tx, is_overdrawn, update_tx, stock_changed_error,
  delete_produce, write_error, remove_tx, disable_tx, own_listing,
}
use laicos_backend.Order.Service.Frames.{transaction_keeps, map_error_keeps}
use laicos_backend.Produce.Stock.{
  IsNumbered, create_tx-IsStocked, update_tx-IsStocked, disable_tx-IsStocked,
  delete_produce-IsStocked, remove_tx-IsStocked,
}

-- The methods that write listings.
pub data ListingCall : Type 0 where
  create : User → CreateProduceDto → ListingCall
  update : User → ℕ → UpdateProduceDto → ListingCall
  remove : User → ℕ → ListingCall
  disable admin_remove : ℕ → ListingCall

-- What the database holds after a call that read `seen` and wrote to `db`.
unfoldable pub after_listing_call : ListingCall → Db → Db → Db
after_listing_call (ListingCall.create user dto) seen db = (Service.create user dto seen db).1
after_listing_call (ListingCall.update user id dto) seen db = (Service.update user id dto seen db).1
after_listing_call (ListingCall.remove user id) seen db = (Service.remove user id seen db).1
after_listing_call (ListingCall.disable id) seen db = (transaction (disable_tx id) db).1
after_listing_call (ListingCall.admin_remove id) seen db = (Service.admin_remove id seen db).1

-- If listing ids are distinct and no order is of a listing still to come, every writing method of
-- the two produce services, on every branch and whatever it read before its transaction, keeps the
-- stock invariant: on each listing the actual stock is the floating stock and what unpaid and
-- unconfirmed orders hold, and its status says whether there is stock.
pub after_listing_call-IsStocked :
    (call : ListingCall) (seen db : Db)
    → IsNumbered db
    → Distinct db.produces
    → IsStocked [] db
    → IsStocked [] (after_listing_call call seen db)
unfolding after_listing_call Service.create Service.update Service.remove Service.admin_remove
after_listing_call-IsStocked (ListingCall.create user dto) seen db numbered distinct h =
    elim (Option-cases
      (find_first (λ f. f.id == dto.farm_id && f.owner_user_id == user.id) seen.farms)) [
        | inl missing ↦ rw (missing, after_listing_call) h
        | inr (farm, found) ↦
            rw (found, after_listing_call)
              (transaction_keeps (IsStocked []) (create_tx farm dto) db h
                (λ p db'. create_tx-IsStocked farm dto db db' p numbered h))
      ]
after_listing_call-IsStocked (ListingCall.update user id dto) seen db numbered distinct h =
    elim (Option-cases (own_listing user id seen)) [
      | inl missing ↦ rw (missing, after_listing_call) h
      | inr ((current, farm), own) ↦
          rw (own, after_listing_call)
            (elim (Bool-cases (is_overdrawn current dto)) [
              | inl over ↦ rw over h
              | inr enough ↦ rw enough (
                  map_error_keeps (IsStocked []) stock_changed_error
                    (transaction (update_tx id current farm dto) db)
                    (transaction_keeps (IsStocked []) (update_tx id current farm dto) db h
                      (λ p db'. update_tx-IsStocked id current farm dto db db' p enough h)))
            ])
    ]
after_listing_call-IsStocked (ListingCall.remove user id) seen db numbered distinct h =
    elim (Option-cases (own_listing user id seen)) [
      | inl missing ↦ rw (missing, after_listing_call) h
      | inr ((current, farm), own) ↦
          rw (own, after_listing_call)
            (map_error_keeps (IsStocked []) write_error
              (transaction (remove_tx user id current farm) db)
              (transaction_keeps (IsStocked []) (remove_tx user id current farm) db h
                (λ p db'. remove_tx-IsStocked user id current farm db db' p distinct h)))
    ]
after_listing_call-IsStocked (ListingCall.disable id) seen db numbered distinct h =
    transaction_keeps (IsStocked []) (disable_tx id) db h
      (λ u db'. disable_tx-IsStocked id db db' u h)
after_listing_call-IsStocked (ListingCall.admin_remove id) seen db numbered distinct h =
    elim (Option-cases (find id seen.produces)) [
      | inl missing ↦ rw (missing, after_listing_call) h
      | inr (p, found) ↦
          rw (found, after_listing_call)
            (elim (Bool-cases (is_disabled p.status)) [
              | inl off ↦ rw off (
                  map_error_keeps (IsStocked []) write_error (transaction (delete_produce id) db) (
                    transaction_keeps (IsStocked []) (delete_produce id) db h
                      (λ p db'. delete_produce-IsStocked id db db' p distinct h)))
              | inr on ↦ rw on h
            ])
    ]
