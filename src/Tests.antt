-- ===== src/Tests.antt =====
-- Runs of the components at concrete inputs.
mod ByteArrays
mod Timers
mod Events
mod Servlets
mod Streams
mod Tables
mod Digits
mod Schedulers
mod Texts
mod Messages
mod Programs
mod Addresses
mod Hooks
