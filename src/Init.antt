-- ===== src/Init.antt =====
-- libazureinit and the azure-init binary: the agent that provisions the machine.
pub mod Error
pub mod Http
pub mod Imds
pub mod Health
pub mod Status
pub mod Machine
pub mod Media
pub mod Main
pub mod Provision
mod Tests
