-- ===== src/Cart.antt =====
-- src/cart: the cart, and the checkout that it becomes.
pub mod Place
pub mod Checkout
pub mod Stock
pub mod Release
pub mod Methods
pub mod Lines
pub mod BuyNow
