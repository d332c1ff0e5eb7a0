-- ===== src/Parser.antt =====
-- internal/parser: proxy links, lists of links, subscriptions and Clash files.
pub mod Outcome
pub mod Stream
pub mod Base64
pub mod Direct
pub mod Vless
pub mod Trojan
pub mod Shadowsocks
pub mod Wireguard
pub mod Http
pub mod Socks
pub mod Vmess
pub mod Link
pub mod Clash
pub mod Returned
pub mod Ports
pub mod Dialable
pub mod Secured
pub mod Dispatch
pub mod Lines
pub mod SsLaws
pub mod Panics
pub mod Subscription
pub mod Origin
pub mod Feed
mod Tests
