-- ===== src/Tests.antt =====
-- Concrete runs: a platform and its worlds, and the theorems applied to them.
mod Sample
mod Log
mod Native
mod Chain
mod Store
mod Requests
mod Units
mod Browsing
mod Pages
mod Starting
mod Delivery
mod Returning
mod Sessions
