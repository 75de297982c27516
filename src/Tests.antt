-- ===== src/Tests.antt =====
-- Runs of the model at fixed inputs, and the theorems at inputs that meet their hypotheses.
mod Maps
mod Devices
mod Frames
mod Views
mod Threads
mod Tables
mod Popups
mod Keys
mod Sockets
mod Routines
mod Inspects
mod Mains
mod Drawings
mod Types
mod Systems
