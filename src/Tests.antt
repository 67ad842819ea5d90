-- ===== src/Tests.antt =====
-- Runs of the definitions, after src/test, and each theorem at concrete arguments.
mod Data
mod Ids
mod Tables
mod Lookups
mod Managers
mod Messages
mod Tools
mod Signing
mod Network
mod Programs
mod Transport
mod Texts
mod Nodes
mod Sims
mod Receiving
