-- ===== src/Application/Administration.antt =====
-- application/administration.py: the maintenance of the production system.
pub mod Ports
pub mod Drain
pub mod Maintenance
pub mod Begin
