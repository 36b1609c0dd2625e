-- ===== src/Product.antt =====
-- product-service.
pub mod Table
pub mod Cache
pub mod Stock
pub mod Catalog
pub mod Lookup
pub mod Reference
pub mod Routes
pub mod Invariant
pub mod Locking
pub mod Conservation
pub mod Coherence
pub mod Paging
