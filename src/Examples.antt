-- ===== src/Examples.antt =====
-- The theorems at concrete inputs.
mod Wire
mod Slicing
mod Transport
mod Delivering
mod Machine
mod Pipes
mod Running
