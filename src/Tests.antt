-- ===== src/Tests.antt =====
-- Runs of the theorems at concrete inputs.
mod Scrapes
mod Collections
mod Configs
mod Textfiles
mod Perflibs
mod Pdhs
mod Services
mod Instances
mod Mis
mod Sites
mod Tables
mod Startups
mod Collectors
mod Requests
mod Workers
mod Closings
mod SubCollections
mod Updates
mod Performance
mod Emissions
mod Cpus
