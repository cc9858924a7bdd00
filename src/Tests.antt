-- ===== src/Tests.antt =====
-- Concrete runs, and each theorem at an input that meets its hypotheses.
mod Channel
mod Sockets
mod NetTests
mod TunnelTests
mod LinkTests
mod RemoteTests
mod SocksTests
mod LocalTests
mod ProtocolTests
mod OptionsTests
mod PollerTests
mod MultiplexTests
mod LaunchTests
