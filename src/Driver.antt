-- ===== src/Driver.antt =====
-- compiler/driver: the modules of a build.
pub mod Resolve
pub mod Discover
pub mod Graph
