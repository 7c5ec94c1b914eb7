-- ===== src/Text.antt =====
-- The standard library's text conversions that the program relies on: strconv.FormatUint and
-- ParseUint in base 10 (the cursor of a snapshot), and fmt.Sprintf("%v", parts) as `fingerprint`
-- of internal/core/task/engine.go uses it.
pub mod Decimal
pub mod Fingerprint
