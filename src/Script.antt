-- ===== src/Script.antt =====
-- border/blockchain/script.py: the opcodes, the templates and the stack machine.
pub mod Bytes
pub mod Op
pub mod Build
pub mod Engine
pub mod Machine
