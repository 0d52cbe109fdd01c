-- ===== src/Payment/Attempts.antt =====
-- What `PaymentService.initiate` promises (src/payment/payment.service.ts).
use Prim.Native.String.{String}
use text.Mathlib.TextPositions.{eq_refl}
use laicos_backend.Prelude.{
  ℕ, ◌<◌, ◌≡◌, refl, ap, ◌∙◌, ◌⊎◌, inl, inr, Bool, true, false, ◌&&◌, some, List, [], ◌∷◌, ◌==◌,
  arith, Option-cases,
}
use laicos_backend.Prelude.Table.{find_many, find_first, update_many}
use laicos_backend.Schema.{
  Db, Result, ok, err, Checkout, Payment, Currency, is_unpaid, payment_keyed, checkout_keyed,
}
use laicos_backend.Cart.Checkout.{is_open_attempt, abandon}
use laicos_backend.Payment.Service.{
  FxConfig, Charge, charge_for, fx_effective_rate, initiate_new, initiate_tx, put_attempt,
  new_payment, is_attempt,
}

find_first-holds :
    {R : Type 0} (p : R → Bool) (t : List R) (r : R) → find_first p t ≡ some r → p r ≡ true
find_first-holds p [] r e = cc
find_first-holds p (x ∷ t) r e = ground (arith, find_first-holds p t r)

none_open :
    (i : ℕ) (t : List Payment)
    → find_many (is_open_attempt i) (update_many (is_open_attempt i) abandon t) ≡ []
none_open i [] = refl
none_open i (p ∷ t) = ground (arith, none_open i t)

abbrev is_of : ℕ → ℕ → Checkout → Bool
is_of checkout_id buyer_id c = c.id == checkout_id && c.buyer_id == buyer_id

charge_for_reads :
    (config : FxConfig) (now amount : ℕ) (currency : Currency) (db db' : Db) (c : Charge)
    → charge_for config now amount currency db ≡ ok (c, db')
    → db' ≡ db
unfolding charge_for fx_effective_rate
charge_for_reads config now amount Currency.ngn db db' c run = ground arith
charge_for_reads config now amount Currency.usd db db' c run = ground arith

initiate_new_inv :
    (config : FxConfig) (now : ℕ) (key : String) (currency : Currency) (checkout : Checkout)
    (db db' : Db) (p : Payment) (fresh : Bool)
    → initiate_new config now key currency checkout db ≡ ok ((p, fresh), db')
    → (fresh ≡ true)
      × (is_unpaid checkout.status ≡ true)
      × (now < checkout.expires_at)
      × ((charge : Charge) × (charge_for config now checkout.total_price currency db
            ≡ ok (charge, db))
          × (p ≡ new_payment db key currency checkout charge)
          × (db' ≡ put_attempt p db))
unfolding initiate_new
initiate_new_inv config now key currency checkout db db' p fresh run =
    split (charge_for config now checkout.total_price currency db) refl
  where
    split :
        (r : Result (Charge × Db))
        → charge_for config now checkout.total_price currency db ≡ r
        → (fresh ≡ true)
          × (is_unpaid checkout.status ≡ true)
          × (now < checkout.expires_at)
          × ((charge : Charge) × (charge_for config now checkout.total_price currency db
                ≡ ok (charge, db))
              × (p ≡ new_payment db key currency checkout charge)
              × (db' ≡ put_attempt p db))
    split (err x) e = absurd (ground (arith, e))
    split (ok (charge, db1)) e =
        let same = charge_for_reads config now checkout.total_price currency db db1 charge e in
        (
          ground (arith, e),
          ground (arith, e),
          ground (arith, e),
          (
            charge,
            e ∙ ap (λ d. ok (charge, d)) same,
            ground (arith, e, same),
            ground (arith, e, same),
          ),
        )

-- A transaction of `initiate` that goes through either found the attempt or opened one.
initiate_tx_inv :
    (config : FxConfig) (now buyer_id checkout_id : ℕ) (key : String) (currency : Currency)
    (db db' : Db) (p : Payment) (fresh : Bool)
    → initiate_tx config now buyer_id checkout_id key currency db ≡ ok ((p, fresh), db')
    → (c : Checkout) × (find_first (is_of checkout_id buyer_id) db.checkouts ≡ some c)
      × (((find_first (is_attempt checkout_id key) db.payments ≡ some p)
            × (fresh ≡ false)
            × (db' ≡ db))
          ⊎ (initiate_new config now key currency c db ≡ ok ((p, fresh), db')))
unfolding initiate_tx
initiate_tx_inv config now buyer_id checkout_id key currency db db' p fresh run =
    elim (Option-cases (find_first (is_of checkout_id buyer_id) db.checkouts)) [
      | inl missing ↦ absurd (ground arith)
      | inr (c, found) ↦ elim (Option-cases (find_first (is_attempt checkout_id key) db.payments)) [
        | inl new ↦ (c, found, inr (ground arith))
        | inr (old, replayed) ↦ (c, found, inl (ground arith, ground arith, ground arith))
      ]
    ]

-- When a new payment attempt is opened, the checkout is the buyer's, awaits payment and has not
-- expired, the attempt is for its total price, and afterwards it is the only open attempt on the
-- checkout.
pub initiate_tx_opens :
    (config : FxConfig) (now buyer_id checkout_id : ℕ) (key : String) (currency : Currency)
    (db db' : Db) (p : Payment)
    → initiate_tx config now buyer_id checkout_id key currency db ≡ ok ((p, true), db')
    → (c : Checkout) × (find_first (is_of checkout_id buyer_id) db.checkouts ≡ some c)
      × (is_unpaid c.status ≡ true)
      × (now < c.expires_at)
      × (p.amount ≡ c.total_price)
      × (find_many (is_open_attempt checkout_id) db'.payments ≡ p ∷ [])
initiate_tx_opens config now buyer_id checkout_id key currency db db' p run =
    let (c, found, how) =
      initiate_tx_inv config now buyer_id checkout_id key currency db db' p true run in
    opens c found how
  where
    opens :
        (c : Checkout)
        → find_first (is_of checkout_id buyer_id) db.checkouts ≡ some c
        → ((find_first (is_attempt checkout_id key) db.payments ≡ some p)
            × (true ≡ false)
            × (db' ≡ db))
          ⊎ (initiate_new config now key currency c db ≡ ok ((p, true), db'))
        → (c : Checkout) × (find_first (is_of checkout_id buyer_id) db.checkouts ≡ some c)
          × (is_unpaid c.status ≡ true)
          × (now < c.expires_at)
          × (p.amount ≡ c.total_price)
          × (find_many (is_open_attempt checkout_id) db'.payments ≡ p ∷ [])
    opens c found (inl (e, old, same)) = absurd cc
    opens c found (inr run) =
        let (fresh, unpaid, early, (charge, charged, made, stored)) =
          initiate_new_inv config now key currency c db db' p true run in
        (
          c,
          found,
          unpaid,
          early,
          rw made refl,
          ground (
            arith,
            made,
            stored,
            find_first-holds (is_of checkout_id buyer_id) db.checkouts c found,
            none_open checkout_id db.payments,
          ),
        )

-- After a payment has been initiated under a key, initiating again under that key for the same
-- checkout, at any time and in any currency, answers the same attempt as not new and writes
-- nothing.
pub initiate_tx_replay :
    (config : FxConfig) (now buyer_id checkout_id : ℕ) (key : String) (currency : Currency)
    (db db' : Db) (p : Payment) (fresh : Bool)
    → initiate_tx config now buyer_id checkout_id key currency db ≡ ok ((p, fresh), db')
    → (config' : FxConfig) (later : ℕ) (currency' : Currency)
    → initiate_tx config' later buyer_id checkout_id key currency' db' ≡ ok ((p, false), db')
unfolding initiate_tx
initiate_tx_replay config now buyer_id checkout_id key currency db db' p fresh run config' later
      currency' =
    let (c, found, how) =
      initiate_tx_inv config now buyer_id checkout_id key currency db db' p fresh run in
    let (known, attempt) = again c found how in ground (arith, known, attempt)
  where
    again :
        (c : Checkout)
        → find_first (is_of checkout_id buyer_id) db.checkouts ≡ some c
        → ((find_first (is_attempt checkout_id key) db.payments ≡ some p)
            × (fresh ≡ false)
            × (db' ≡ db))
          ⊎ (initiate_new config now key currency c db ≡ ok ((p, fresh), db'))
        → (find_first (is_of checkout_id buyer_id) db'.checkouts ≡ some c)
          × (find_first (is_attempt checkout_id key) db'.payments ≡ some p)
    again c found (inl (e, old, same)) = (rw same found, rw same e)
    again c found (inr run) =
        let (new, unpaid, early, (charge, charged, made, stored)) =
          initiate_new_inv config now key currency c db db' p fresh run in
        (
          rw stored found,
          ground (
            arith,
            made,
            stored,
            eq_refl key,
            find_first-holds (is_of checkout_id buyer_id) db.checkouts c found,
          ),
        )
