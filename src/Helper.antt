-- ===== src/Helper.antt =====
-- contracts/lumenflow/src/helper.rs: the comparison and the encoding of bytes.
pub mod Bytes
pub mod ConstantTime
pub mod Payload
