-- ===== src/Examples.antt =====
-- Runs of the model on small inputs, and each theorem that has hypotheses applied to one.
mod Desk
mod Trees
mod Texts
mod Clients
mod Connections
mod Lines
mod Devices
mod Starts
mod Settings
mod Openings
