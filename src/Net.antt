-- ===== src/Net.antt =====
-- com/antlersoft/net: buffers, framed streams and the poll loop.
pub mod Result
pub mod Kernel
pub mod WriteStream
pub mod ReadStream
pub mod Transfer
pub mod SockBuffer
pub mod Poller
