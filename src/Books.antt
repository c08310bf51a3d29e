-- ===== src/Books.antt =====
-- src/books and the parser of order books of src/polymarket/client.ts.
pub mod Store
pub mod Levels
pub mod Token
