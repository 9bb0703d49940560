-- ===== src/Tests.antt =====
-- A small ELF file and a kernel that accepts every call, on which the functions are run, and the
-- theorems that have conditions are applied.
mod Elves
mod Runs
mod Frames
mod Creation
mod Session
mod Wires
mod Sharing
mod Reading
mod Lacking
mod Uart
mod Moves
mod Failures
mod Witnesses
