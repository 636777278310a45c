-- ===== src/Tests.antt =====
-- Concrete inputs: each theorem with hypotheses at an input where they hold.
mod Toy
mod Keys
mod Files
mod Requests
mod Transfers
mod Dialogs
mod Sockets
mod Storages
mod Listing
mod Auth
mod Deals
mod Pages
mod Money
mod Openings
mod Hooked
mod Trade
mod Shop
