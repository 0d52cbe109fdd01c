-- ===== src/Tests.antt =====
-- A small marketplace on which the services are run, and the theorems applied.
mod Shop
mod Orders
mod Carts
mod Payments
mod Sourcing
mod Payouts
mod Handovers
mod Listings
mod CartLines
mod Rounds
mod Verifications
mod Sourcings
mod Farms
mod Runs
