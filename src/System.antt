-- ===== src/System.antt =====
-- The services together: what any run of requests keeps.
pub mod Charged
pub mod Run
