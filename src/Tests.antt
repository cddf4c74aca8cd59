-- ===== src/Tests.antt =====
-- Concrete inputs, and the theorems of the library applied to them.
mod Data
mod Streams
mod Races
mod Providers
mod Remote
mod Clients
mod Lifecycles
mod Adjustments
mod Views
mod Programs
mod Modules
