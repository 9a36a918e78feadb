-- ===== src/Tests.antt =====
-- Concrete runs of the classes of include/disruptorplus, and the theorems at concrete inputs.
mod Scene
mod Sequences
mod Buffers
mod Waits
mod Claims
mod Shared
mod Quiet
mod Readers
mod Blocked
mod Programs
mod Producers
