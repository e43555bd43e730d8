-- ===== src/Data.antt =====
-- Values that the TypeScript code uses and the library lacks over native numbers: `bigint`s, texts,
-- decimal numerals, and results with an error code.
pub mod Int
pub mod Result
pub mod Text
pub mod Decimal
pub mod Dict
pub mod Json
pub mod Sort
pub mod BigInt
