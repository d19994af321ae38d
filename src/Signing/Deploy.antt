-- ===== src/Signing/Deploy.antt =====
-- The deployment actions of signing/deploy_actions.go: their checks, what the checks accept, and
-- the two forms of the perpDeploy and spotDeploy unions.
pub mod Checks
pub mod Sorted
pub mod Registers
pub mod Perps
pub mod Spots
pub mod PerpActions
pub mod PerpChecks
pub mod SpotActions
pub mod Forms
pub mod SpotForms
