-- ===== src/Examples.antt =====
-- The theorems at concrete inputs.
mod Toy
mod Calls
mod Deployments
mod Maintenance
mod Strings
mod Coins
mod Handles
mod Arguments
mod Configurations
mod Commands
mod Brands
mod Indexing
mod Databases
mod Executables
