-- ===== src/Examples.antt =====
-- Runs of the definitions on concrete inputs.
mod Reviewers
mod Documents
mod Http
mod Tenants
mod Rows
mod Jobs
mod Migrations
mod Sessions
mod Confirmations
mod Links
