-- ===== src/Clients.antt =====
-- The generated clients: client/informers/externalversions.
pub mod Factory
mod Tests
