-- ===== src/Net.antt =====
-- The classes of src/net that wrap libcurl.
pub mod Share
pub mod Easy
pub mod Multi
pub mod Factory
mod Toy
pub mod Startup
mod Examples
