-- ===== src/External.antt =====
-- What the program uses of the libraries and services that are not in this repository.
pub mod Redis
pub mod Json
pub mod Scripts
pub mod KeyValue
pub mod Remote
pub mod Signing
pub mod Sets
pub mod Samples
pub mod Ciphers
pub mod Server
