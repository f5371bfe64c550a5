-- ===== src/Machine.antt =====
-- code/machine: the simulated MIPS processor, its address translation and its memory.
pub mod Words
pub mod State
pub mod Exceptions
pub mod Translate
pub mod Memory
pub mod Mult
pub mod Decode
pub mod Execute
pub mod Cycle
pub mod Boot
