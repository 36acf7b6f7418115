-- ===== src/Tests.antt =====
-- The theorems of the library on concrete inputs.
mod Data
mod Blocks
mod Managers
mod Schedulers
mod Engines
mod Steps
mod Servers
mod Backends
mod Statics
