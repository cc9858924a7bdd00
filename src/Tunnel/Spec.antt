-- ===== src/Tunnel/Spec.antt =====
-- class ConnectionSpec of StdioTunnel.h and StdioTunnel.cpp. An int is its 32-bit pattern, a
-- string the list of its bytes.
pub mod Parse
pub mod RoundTrip
use tun.Prelude.{ℕ, List, ◌++◌, ◌∷◌, [], Bool, ◌&&◌, length, ◌==◌, to_int}
use tun.Net.WriteStream.{WriteStream, write_short, write_string}
use tun.Net.ReadStream.Values.{Reader, pure, ◌>>=◌, read_short, read_string}

-- `enum Direction`; a deserialized spec may hold any int.
abbrev pub listen : ℕ
listen = 0

abbrev pub connect : ℕ
connect = 1

pub record ConnectionSpec : Type 0 where
  pub connection_type : ℕ
  pub connect_host : List ℕ
  pub connect_port : ℕ
  pub listen_port : ℕ
  pub flags : ℕ

unfoldable pub serialize : ConnectionSpec → WriteStream → WriteStream
serialize s w0 =
    let w1 = write_short s.connection_type w0 in
    let w2 = write_string s.connect_host w1 in
    let w3 = write_short s.connect_port w2 in
    let w4 = write_short s.listen_port w3 in write_short s.flags w4

unfoldable pub deserialize : Reader ConnectionSpec
deserialize = do
  connection_type ← read_short
  connect_host ← read_string
  connect_port ← read_short
  listen_port ← read_short
  flags ← read_short
  pure (record {
    connection_type = to_int connection_type;
    connect_host = connect_host;
    connect_port = to_int connect_port;
    listen_port = to_int listen_port;
    flags = to_int flags;
  })

-- `isSocks5()`
unfoldable pub is_socks5 : ConnectionSpec → Bool
is_socks5 s = length s.connect_host == 0 && s.connect_port == 0
