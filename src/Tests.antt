-- ===== src/Tests.antt =====
-- Runs of the model at concrete inputs.
mod Data
mod Recon
mod Tables
mod Orders
mod Feeds
mod Messages
mod System
mod Log
