-- ===== src/Tests.antt =====
-- Concrete runs of the model: sample data, tests, and an example for each theorem that has
-- hypotheses or arguments.
pub mod Samples
pub mod ControlSamples
mod Policies
mod Gateway
mod Services
mod Publishing
mod Tenants
mod Databases
mod RulePackages
mod Configurations
