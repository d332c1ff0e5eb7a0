-- ===== src/Download.antt =====
-- download: ranges of a file, the measurement of a speed, and the units in which it is printed.
pub mod Range
pub mod Speed
pub mod Endpoint
pub mod Meter
pub mod Upload
mod Tests
