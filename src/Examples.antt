-- ===== src/Examples.antt =====
-- The theorems at concrete inputs, by part of the program.
mod Frames
mod Routing
mod Link
mod Transport
mod Applications
mod Connected
mod Hosts
