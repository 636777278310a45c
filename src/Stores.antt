-- ===== src/Stores.antt =====
-- The stores of packages/frontend/src/app/stores, and what they share.
pub mod ErrorText
pub mod Request
pub mod Transfer
pub mod Dialog
pub mod Socket
pub mod Lists
pub mod TransferList
pub mod Chains
pub mod Auth
pub mod Opened
