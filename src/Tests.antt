-- ===== src/Tests.antt =====
-- Runs of the modelled code on small inputs, and the properties at concrete inputs.
mod Queue
mod HashMap
mod Log
mod Client
mod Connection
mod Buffers
mod Transfer
mod Setup
mod Thread
mod Waiting
mod Devices
mod Exchange
mod Context
mod Passing
