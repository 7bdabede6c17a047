-- ===== src/Tags.antt =====
-- The tag database: src/tags and include/softplc/tags.
pub mod Value
pub mod Store
