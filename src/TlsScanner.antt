-- ===== src/TlsScanner.antt =====
-- pkg/tlsscanner/results.go: the results of the TLS scanner, and what the specs assert of them.
pub mod Results
pub mod Search
pub mod Compliance
mod Tests
