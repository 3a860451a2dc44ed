-- ===== src/Tests.antt =====
-- Runs of the model on concrete inputs, over a small key provider and certificate store.
pub mod Toy
pub mod ToyRoot
pub mod ToyTrust
pub mod ToyCalm
pub mod ToyLegacy
pub mod ToyCommand
pub mod Runs
mod Witnesses
mod CleanupWitnesses
mod ExampleWitnesses
mod CertificateWitnesses
mod StoreWitnesses
mod TestKeyWitnesses
