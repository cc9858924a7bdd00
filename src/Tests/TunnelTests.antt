-- ===== src/Tests/TunnelTests.antt =====
-- The theorems of Tunnel at concrete inputs.
use tun.Prelude.{ℕ, ◌≡◌, ◌≢◌, refl, List, [], ◌∷◌, ◌++◌, arith, false, take, inl}
use tun.Net.Result.{ok, throw, bad_connect_host_or_port}
use tun.Net.WriteStream
use tun.Net.ReadStream.{ReadStream}
use tun.Net.ReadStream.Values.Laws.{holding}
use tun.Tunnel.Spec.{ConnectionSpec, serialize, deserialize, connect, listen}
use tun.Tunnel.Spec.RoundTrip.{narrow, deserialize-serialize}
use tun.Tunnel.Remote.{localhost}
use tun.Tunnel.Spec.Parse.{parse_connection, option_flags, atoi, split_fields}
use tun.Tunnel.Spec.Parse.Laws.{
  spec_text, parse-spec_text, IsParsed, parse-IsParsed, parse-ne-throw,
}
use tun.Tunnel.Detector.{Detector, Signal, process_read_data, start_handshaking}
use tun.Tunnel.Detector.Laws.{starts, process_sound, process_misses, magic_text}

-- `8080:db:40000:a`: the connect port does not fit a short.
abbrev database : ConnectionSpec
database = record {
  connection_type = connect;
  connect_host = b'd' ∷ b'b' ∷ [];
  connect_port = 40000;
  listen_port = 8080;
  flags = 1;
}

abbrev empty_stream : ReadStream
empty_stream = record { queue = []; read_buf = []; read_size = 4096 }

deserialize-serialize_example :
    deserialize (holding ((serialize database WriteStream.fresh).queue ++ 5 ∷ []) empty_stream)
    ≡ ok (narrow database, holding (5 ∷ []) empty_stream)
deserialize-serialize_example = deserialize-serialize database (5 ∷ []) empty_stream (omega arith)

-- `2001:localhost:22:a`, an example of the usage text.
parse-spec_text_example :
    parse_connection connect (spec_text (2 ∷ 0 ∷ 0 ∷ 1 ∷ []) localhost (2 ∷ 2 ∷ []) (b'a' ∷ []))
    ≡ ok (record {
      connection_type = connect;
      connect_host = localhost;
      connect_port = 22;
      listen_port = 2001;
      flags = option_flags (b'a' ∷ []);
    })
parse-spec_text_example =
    parse-spec_text connect 2 2 (0 ∷ 0 ∷ 1 ∷ []) localhost (2 ∷ []) (b'a' ∷ []) (omega arith)
      (omega arith) (omega arith) (omega arith) (omega arith) (omega arith) (omega arith)
      (inl (omega arith))

-- `8080:db:40000:a`
abbrev database_text : List ℕ
database_text =
    spec_text (8 ∷ 0 ∷ 8 ∷ 0 ∷ []) (b'd' ∷ b'b' ∷ []) (4 ∷ 0 ∷ 0 ∷ 0 ∷ 0 ∷ []) (b'a' ∷ [])

parsed : parse_connection connect database_text ≡ ok database
unfolding parse_connection tun.Tunnel.Spec.Parse.parse_spec split_fields atoi
    tun.Tunnel.Spec.is_socks5
parsed = refl

parse-IsParsed_example : IsParsed connect database
parse-IsParsed_example = parse-IsParsed connect database_text database parsed

-- `80::22`, a port without a host.
parse-ne-throw_example :
    parse_connection connect (56 ∷ 48 ∷ 58 ∷ 58 ∷ 50 ∷ 50 ∷ []) ≢ throw bad_connect_host_or_port
parse-ne-throw_example = parse-ne-throw connect (56 ∷ 48 ∷ 58 ∷ 58 ∷ 50 ∷ 50 ∷ [])

abbrev detector : Detector
detector = record {
  recognized_count = 0;
  magic_string = magic_text;
  recognized_login_count = 0;
  login_pattern = b'$' ∷ [];
  remote_cmd = b'x' ∷ [];
}

detector_end :
    process_read_data (b'-' ∷ b'!' ∷ []) (record detector { recognized_count = 30 })
    ≡ ok (record detector { recognized_count = 31 }, start_handshaking ∷ [])
unfolding process_read_data tun.Tunnel.Detector.match_byte
detector_end = refl

process_sound_example :
    (pre : List ℕ) × (post : List ℕ) × ((b'o' ∷ b'k' ∷ [])
        ++ (take 30 magic_text ++ (b'-' ∷ b'!' ∷ []))
      ≡ pre ++ (magic_text ++ post))
process_sound_example =
    process_sound (record detector { recognized_count = 30 })
      (record detector { recognized_count = 31 }) (b'o' ∷ b'k' ∷ []) (b'-' ∷ b'!' ∷ [])
      (start_handshaking ∷ []) (omega arith) detector_end refl

missed_run : process_read_data (b'S' ∷ magic_text) detector ≡ ok (detector, [])
unfolding process_read_data tun.Tunnel.Detector.match_byte tun.Tunnel.Detector.match_login
missed_run = refl

process_misses_example : starts [] ≡ false
process_misses_example = process_misses detector detector [] refl refl missed_run
