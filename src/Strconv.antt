-- ===== src/Strconv.antt =====
-- What the code uses of Go's strconv and fmt.
pub mod Decimal
pub mod ParseInt
pub mod Hex
