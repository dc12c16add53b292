-- ===== src/Cashier.antt =====
-- The services that decide requests about money: buy-in, buy-out and credit requests.
pub mod BuyIn
pub mod Settlement
pub mod BuyOut
pub mod Notes
pub mod Accounts
pub mod CreditRequests
pub mod Sound
pub mod Conservation
