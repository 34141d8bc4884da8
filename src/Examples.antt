-- ===== src/Examples.antt =====
-- The theorems at concrete inputs, by the part of the program that they are about.
mod Access
mod Running
mod Scaling
mod Starting
mod Joining
mod Watching
mod Tools
mod Channels
mod Tokens
mod Incidents
mod Replicas
mod Stores
mod Catalogue
