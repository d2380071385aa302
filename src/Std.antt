-- ===== src/Std.antt =====
-- What the source uses of the Go standard library: strings, path and path/filepath (on Unix),
-- strconv and encoding/base64. Texts are byte lists.
pub mod Strings
pub mod Paths
pub mod Base64
pub mod Strconv
