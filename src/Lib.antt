-- ===== src/Lib.antt =====
-- The marketplace back end: a NestJS server through which farmers list produce, buyers order and
-- pay for it, and admins refund and source it.
--
-- Parts and files
--   prisma/schema.prisma                        Schema: the rows, the enums, the database and its
--                                               transactions (Schema/Enums, Rows, Rounds,
--                                               Database)
--   src/common/money.ts                         Common/Money
--   `trim` and `toLowerCase`                    Common/Text
--   src/produce/utils/produce-status.ts         Produce
--   src/produce/produce.service.ts and
--   src/produce/admin-produce.service.ts        Produce/Service
--   src/order/utils/reservation.ts              Order/Reservation
--   src/order/order.service.ts                  Order/Service (reads, audit, confirm, prepare),
--                                               Order/Service/Ready, Order/Service/Cancel;
--                                               Cart/BuyNow for `create`
--   src/cart/utils, src/cart/checkout.service.ts Cart/Place, Cart/Checkout
--   src/cart/cart.service.ts                    Cart/Lines
--   src/payment/utils/release-checkout.ts       Cart/Checkout
--   src/payment/checkout-expiry.service.ts      Payment/Expiry
--   src/payment/payment.service.ts, src/fx      Payment/Service; the end of `applyVerifiedCharge`
--                                               in Payment/Refund
--   src/payment/refund.service.ts               Payment/Refund
--   src/payout/utils/eligibility.ts             Payout/Eligibility
--   src/payout/payout.service.ts                Payout/Service
--   src/handover/handover.service.ts            Handover
--   src/verification/utils                      Verification/Agents, Verification/Documents,
--                                               Verification/Checklist
--   src/verification/services                   Verification/Assignment, Verification/Service
--   src/sourcing-request/utils                  SourcingRequest/Rules, SourcingRequest/Sync
--   src/sourcing-request/admin-sourcing-request.service.ts
--                                               SourcingRequest/Service (assign, escalate, close,
--                                               and a buyer's `create` of
--                                               sourcing-request.service.ts),
--                                               SourcingRequest/Selection (save),
--                                               SourcingRequest/Confirm
--   src/farm/services/farm.service.ts           Farm/Service (create), Farm/Update,
--                                               Farm/Documents (replaceDocuments, remove)
--   src/farm/services/admin-farm.service.ts     Farm/Documents (suspend)
--   src/verification/services/farm-documents.service.ts
--                                               Farm/Documents (replace)
--
-- Proofs stand in Order/Stock and its children, Produce/Stock, Produce/Methods, Cart/Stock,
-- Cart/Release, Cart/Methods, the children of Cart/Lines, Payment/Attempts, Payment/Refund/Bounded,
-- Payment/Charge, Payment/Methods, Payout/Once, Payout/Exclusive, Payout/Approve, Payout/Methods,
-- Payout/Refunds, Handover/Complete, Verification/Agents and its child, Verification/Documents,
-- Verification/Checklist/Complete, Verification/Placed, Verification/Steps, Verification/Methods,
-- Verification/Approve, SourcingRequest/Synced, SourcingRequest/Stocked, SourcingRequest/Methods,
-- SourcingRequest/Live, SourcingRequest/OneLive, SourcingRequest/Confirmed, SourcingRequest/Saved,
-- SourcingRequest/Closed, Farm/InStep, Farm/Opened, Farm/Updated, Farm/Rewritten, Farm/Methods,
-- Farm/Rounds, Farm/Decisions, Farm/Agents and Farm/Reopen; System/Run puts the services together
-- (System/Charged has the part about charges), and Tests runs them on a small marketplace. Prelude
-- has the tests on numbers and the tables that all parts share.
--
-- The parts interact through the database. A checkout reserves stock with Order/Reservation and
-- makes orders that await payment; a verified charge turns them into pending ones; a cancelled or
-- expired checkout, and a cancelled or deleted order, gives stock back with `release_stock`; the
-- order service confirms, prepares and readies paid orders, a completed handover ships them; each
-- of these rewrites the status of a linked sourcing request. The produce services edit the stock
-- that orders hold. Payouts pay fulfilled orders, and refunds look at payouts before they give
-- money back. A verified farm, whose agent then has its handovers, can sell. Creating or
-- resubmitting a farm opens a verification round, which assignment gives to an agent. An admin
-- confirms a sourcing request by reserving the listings selected for it and placing a checkout for
-- its buyer; closing the request releases that checkout.
--
-- How the code is modelled
--   * A table is the list of its rows (Prelude/Table), with the columns that the modelled services
--     read or write. Ids are numbers that the database hands out (`next_id`); order numbers and
--     payment references are database defaults, so they are functions of the row's id that the
--     database holds. The joins by foreign key of Prisma's `include` are lookups by id, and a row
--     whose parent is missing is treated as the query treats it. A cluster is known by its agent.
--   * `$transaction` is a function from the database to a failure or a result and the database
--     after it; a failure leaves the database as it was. `update` on no row is Prisma's P2025
--     (`record_not_found`), and the CHECKs on Produce are the failure `check_violation`. The
--     unique index on the live items of payouts is a test on the table (`is_indexed`), and so is
--     the one on the open rounds of a farm (`open_farm_round`). Deleting a farm deletes what its
--     foreign keys cascade to, or fails where one restricts it.
--   * A method of the order, produce, farm and verification services that reads before its
--     transaction takes two databases: `seen`, which it read, and `db`, on which its transaction
--     runs, so that other requests may come in between. A transaction itself is one step: the
--     services hold advisory or row locks, and the interleavings inside a transaction under READ
--     COMMITTED are not modelled.
--   * Amounts are numbers of hundredths, percentages of hundredths of a percent, exchange rates of
--     millionths, times of milliseconds, dates of days. Decimal arithmetic is exact with the one
--     rounding that the source asks for; the twenty digits that decimal.js keeps in a division and
--     the 32-bit columns are not modelled. The time, the date in Lagos and what Paystack answers
--     are arguments, and so are the keys that the object store gives and the text that the
--     runtime makes of an amount, an id or a quantity (`show`). The quantity of a sourcing request
--     is a number of thousandths. Names and units are compared by code points, with white space
--     trimmed and capitals up to Latin-1 lowered.
--   * A failure keeps the kind or the code of the exception and drops its message. Logging and the
--     formatters, which pick columns for a response, are left out; so are the columns that only
--     they read.
--   * Every function is total and recurses on a list, so there is no fuel. The expiry sweep takes
--     the source's 100 checkouts.
--
-- Not modelled: controllers, guards, DTO validation, accounts and login, the registration and
-- profiles of farmers, the admin side of verification, information requests, the upload of farm
-- documents by an agent on site, the queries that only read, notifications and mail, chat, file
-- storage, bank accounts, and the HTTP client of Paystack.
pub mod Prelude
pub mod Schema
pub mod Common
pub mod Produce
pub mod SourcingRequest
pub mod System
pub mod Order
pub mod Cart
pub mod Payment
pub mod Payout
pub mod Farm
pub mod Handover
pub mod Verification
pub mod Tests
