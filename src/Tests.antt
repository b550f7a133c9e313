-- ===== src/Tests.antt =====
-- Runs at concrete inputs, which also show that the theorems' conditions can hold.
mod Samples
mod Partitions
mod Input
mod Selection
mod Mounted
mod Flashing
mod Whole
mod Display
mod Box
mod Screens
mod Takeover
