-- ===== src/Tests.antt =====
-- Runs of the model on small stores, and each result applied to one of them.
pub mod Data
pub mod Claiming
pub mod Running
pub mod Serving
pub mod Sending
pub mod Program
pub mod Web
pub mod Tables
pub mod Working
