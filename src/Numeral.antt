-- ===== src/Numeral.antt =====
-- How the services write and read user ids and other numbers in headers, paths and queries: Go's
-- `fmt.Sprintf("%v", …)` of a JSON number, `fmt.Sscanf(s, "%d", …)` and `strconv.ParseUint`.
mod Defs
pub mod RoundTrip
unfoldable pub use Defs.*
