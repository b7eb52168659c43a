-- ===== src/Gallery.antt =====
-- The gallery service, services/gallery/src.
pub mod RateLimit
