-- ===== src/Examples.antt =====
-- Concrete inputs on which the theorems apply.
mod Proofs
mod Policies
mod Spaces
mod Matches
mod Limits
mod Claims
mod Terms
mod Stores
mod Logins
mod Seals
mod Vaults
mod Masks
mod Egresses
mod Federations
