-- ===== src/Tests.antt =====
-- The theorems at concrete inputs.
mod Space
mod Frames
mod Semaphores
mod Rings
mod Scheduling
mod Chunks
mod Numbers
mod Screen
mod Nested
mod Tables
mod Disk
mod Trees
mod Drivers
mod Media
mod Memory
mod Programs
