-- ===== src/Xray.antt =====
-- internal/xray: the proxy configuration and the JSON that is handed to xray-core.
pub mod Config
pub mod Json
pub mod Stream
pub mod Outbound
pub mod Laws
pub mod Insecure
pub mod Address
mod Tests
