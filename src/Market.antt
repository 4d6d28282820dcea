-- ===== src/Market.antt =====
-- The marketplace of the API: api/src/marketplace.
pub mod Types
pub mod Orders
pub mod Pages
pub mod QuoteAssets
pub mod Trading
pub mod Purchase
pub mod Nonces
pub mod Sequence
pub mod Freshness
pub mod Liquidity
pub mod Filling
pub mod Slippage
pub mod Reconciliation
pub mod Repair
pub mod Feeds
mod Tests
