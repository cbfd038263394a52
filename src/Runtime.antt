-- ===== src/Runtime.antt =====
-- runtime/__init__.py, with the parts of daemon/__init__.py that drive its stores.
pub mod Frontend
pub mod Backends
pub mod Pool
pub mod Rewrite
pub mod Registry
mod Tests
