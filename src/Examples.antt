-- ===== src/Examples.antt =====
-- The theorems at concrete inputs, with the services played by maps and a fixed network.
mod Nodes
mod Networks
mod Limits
mod Tenants
mod Serving
mod Gateway
mod Recording
mod Accounts
mod Tables
mod Summaries
mod Ingesting
mod Admins
mod Systems
mod Starting
mod Metering
