-- ===== src/Examples.antt =====
-- Concrete libraries to run the model on: a text format in the place of JSON and of the packets'
-- wire format, a file system and a database driver in memory.
pub mod Format
pub mod Libraries
pub mod Protocol
pub mod Finite
pub mod Tree
