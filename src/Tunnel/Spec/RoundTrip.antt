-- ===== src/Tunnel/Spec/RoundTrip.antt =====
-- What a ConnectionSpec becomes on its way through the tunnel.
use tun.Prelude.{
  ℕ, ◌<◌, ◌≤◌, ◌^◌, ◌≡◌, ap, List, ◌++◌, append_assoc, length, arith, to_short, to_int, ◌⊎◌, ◌↔◌,
}
use tun.Net.Result.{ok}
use tun.Net.WriteStream
use tun.Net.WriteStream.{WriteStream, write_short, write_string}
use tun.Net.ReadStream.{ReadStream}
use tun.Net.ReadStream.Values.Laws.{
  Reads, Reads-bind, Reads-pure, holding, short_bytes, string_bytes, read_short-bytes,
  read_string-bytes,
}
use tun.Tunnel.Spec.{ConnectionSpec, serialize, deserialize}

-- Each int goes through a short.
unfoldable pub narrow : ConnectionSpec → ConnectionSpec
narrow s = record {
  connection_type = to_int (to_short s.connection_type);
  connect_host = s.connect_host;
  connect_port = to_int (to_short s.connect_port);
  listen_port = to_int (to_short s.listen_port);
  flags = to_int (to_short s.flags);
}

unfoldable pub spec_bytes : ConnectionSpec → List ℕ
spec_bytes s =
    short_bytes s.connection_type
    ++ (string_bytes s.connect_host
        ++ (short_bytes s.connect_port ++ (short_bytes s.listen_port ++ short_bytes s.flags)))

pub queue-serialize :
    (s : ConnectionSpec) (w : WriteStream) → (serialize s w).queue ≡ w.queue ++ spec_bytes s
unfolding serialize spec_bytes write_short write_string
queue-serialize s w = simp append_assoc

pub deserialize-Reads :
    (s : ConnectionSpec)
    → length s.connect_host < 2 ^ 32
    → Reads deserialize (spec_bytes s) (narrow s)
unfolding deserialize spec_bytes narrow
deserialize-Reads s h = Reads-bind _ (read_short-bytes s.connection_type) (
    Reads-bind _ (read_string-bytes s.connect_host h) (
      Reads-bind _ (read_short-bytes s.connect_port)
        (Reads-bind _ (read_short-bytes s.listen_port) (Reads-pure _ (read_short-bytes s.flags)))))

-- What `serialize` appends, `deserialize` takes off again, no more and no less; the spec comes
-- back with each int cut to a short.
pub deserialize-serialize :
    (s : ConnectionSpec) (rest : List ℕ) (r : ReadStream)
    → length s.connect_host < 2 ^ 32
    → deserialize (holding ((serialize s WriteStream.fresh).queue ++ rest) r)
      ≡ ok (narrow s, holding rest r)
unfolding WriteStream.fresh
deserialize-serialize s rest r h =
    rw (queue-serialize s WriteStream.fresh) ((deserialize-Reads s h).takes rest r)

-- The int that a short stands for: from -32768 to 32767.
abbrev pub FitsShort : ℕ → Type 0
FitsShort x = (x < 32768) ⊎ ((4294934528 ≤ x) × (x < 4294967296))

to_int-fits : (x : ℕ) → FitsShort x → to_int (to_short x) ≡ x
to_int-fits x h = ground arith

fits-to_int : (x : ℕ) → to_int (to_short x) ≡ x → FitsShort x
fits-to_int x h = ground arith

-- A spec comes back unchanged from serialize and deserialize exactly if its direction, its ports
-- and its flags each fit a signed 16-bit short: `narrow` is what comes back.
pub narrow-eq_iff :
    (s : ConnectionSpec)
    → (narrow s ≡ s) ↔ (
        FitsShort s.connection_type
        × FitsShort s.connect_port
        × FitsShort s.listen_port
        × FitsShort s.flags)
unfolding narrow
narrow-eq_iff s = (
  λ e. (
    fits-to_int _ (ap (λ (t : ConnectionSpec). t.connection_type) e),
    fits-to_int _ (ap (λ (t : ConnectionSpec). t.connect_port) e),
    fits-to_int _ (ap (λ (t : ConnectionSpec). t.listen_port) e),
    fits-to_int _ (ap (λ (t : ConnectionSpec). t.flags) e),
  ),
  λ h. (λ i. record {
    connection_type = to_int-fits _ h.0 i;
    connect_host = s.connect_host;
    connect_port = to_int-fits _ h.1 i;
    listen_port = to_int-fits _ h.2 i;
    flags = to_int-fits _ h.3 i;
  }),
)
