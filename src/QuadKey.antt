-- ===== src/QuadKey.antt =====
-- src/QuadKeyTS.cpp and include/QuadKeyTS.h: the object that computes the quadkeys of an area.
mod Tests
pub mod Keys
pub mod Distinct
pub mod Unify
pub mod Dimension
pub mod Tile
pub mod Filter
