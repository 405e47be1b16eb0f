-- ===== src/Derived.antt =====
-- src/derived: the images that lifecycle scripts leave. Here, the key of an image.
pub mod Key
pub mod Inputs
mod Tests
