-- ===== src/Tunnel.antt =====
-- com/antlersoft/stdio_tunnel: connection specs, the command line, links, both ends of the tunnel
-- and the SOCKS5 server.
pub mod Spec
pub mod Options
pub mod Detector
pub mod Link
pub mod Connection
pub mod Side
pub mod Remote
pub mod Socks
pub mod Local
pub mod Protocol
pub mod Multiplex
pub mod Main
pub mod Terminal
