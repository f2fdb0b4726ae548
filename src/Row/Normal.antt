-- ===== src/Row/Normal.antt =====
-- What `normalizeRowOperation` of src/client/row/normalization.ts returns is normal.
pub mod Rows
pub mod Fields
pub mod Key
pub mod Operation
