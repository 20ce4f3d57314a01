-- ===== src/Sqlnorm.antt =====
-- internal/sqlnorm: classification, keyword search, LIMIT and OFFSET, splitting.
pub mod Quoted
pub mod Keyword
pub mod Itoa
pub mod Operation
pub mod Limit
pub mod Split
