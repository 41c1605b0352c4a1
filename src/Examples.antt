-- ===== src/Examples.antt =====
-- Witnesses: the theorems at concrete inputs.
mod World
mod Leases
mod Requests
mod Servers
mod Catalogs
mod Archives
mod Stores
mod Logs
mod Admins
mod Builders
mod Configs
mod Domains
mod Calls
mod Histories
