-- ===== src/Tests.antt =====
-- Runs of the model at concrete data, and its theorems at such data.
mod Data
mod Resolve
mod Plan
mod Bundle
mod Records
mod Replacements
mod Configs
mod DataFiles
mod Requests
mod Moves
mod Filters
mod Keys
mod Texts
mod Syncs
mod Registries
mod Pages
