-- ===== src/Orders.antt =====
-- src/orders: the order repository, the service that creates orders, and reading them.
pub mod Repository
pub mod Service
pub mod Listing
pub mod Samples
mod Tests
