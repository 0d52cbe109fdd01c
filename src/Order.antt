-- ===== src/Order.antt =====
-- src/order: orders, and the stock that they hold.
pub mod Reservation
pub mod Stock
pub mod Service
