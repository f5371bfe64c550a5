-- ===== src/Tests.antt =====
-- Runs of the modelled code at concrete inputs.
mod Storage
mod Files
mod Cpu
mod Cycle
mod Devices
mod Kernel
mod LinkedLists
mod FileSystems
mod StoredFile
mod Elevators
mod AddrSpaces
