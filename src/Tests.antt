-- ===== src/Tests.antt =====
-- Runs of the models on concrete inputs.
mod Keys
mod Alerts
mod Caches
mod Badges
mod Services
mod Memory
mod Stores
mod Contexts
mod Suites
mod Heartbeats
mod Pages
mod Conditions
mod Windows
mod Health
mod Pushes
mod Configurations
