-- ===== src/Tunnel/Remote/Start.antt =====
-- StdioTunnelRemote::start and StdioTunnel::startFinish, up to the loop of the poller.
use tun.Prelude.{
  ℕ, ◌≡◌, ◌≢◌, refl, ◌++◌, ◌∷◌, [], List, Option, none, some, Bool, true, false, All, append_assoc,
  if◌then◌else◌,
}
use tun.Net.Result.{Result, ok, throw, Errno, errno, ◌>>=◌}
use tun.Net.WriteStream.{write_short}
use tun.Net.Poller.{add_polled}
use tun.Net.Poller.Entries.{new_entry}
use tun.Tunnel.Detector.{Detector, Signal, process_read_data}
use tun.Tunnel.Detector.Laws.{magic_text, starts, process_detects}
use tun.Tunnel.Link.{Shared, wants, writing, send}
use tun.Tunnel.Remote.{Remote, initial, handshaking, set_pollfd, cmd_shutdown}

-- `m_poller.addPolled(*this)`
unfoldable pub add_remote : Remote → Result Remote
unfolding set_pollfd
add_remote r = do
  (fd, events, r') ← set_pollfd r
  ok (record r' {
    shared = record r'.shared { poller = add_polled r.address fd events r'.shared.poller };
  })

-- `startFinish` when `start` has returned: the shutdown is passed on, for one more `pollOnce`.
unfoldable pub pass_shutdown : Bool → Shared → Result Shared
pass_shutdown closed_by_request s =
    if closed_by_request then send (writing (write_short cmd_shutdown) s) else ok s

-- What write(2) makes of the magic string, `none` where it is written whole, and what fcntl(2)
-- makes of the two descriptors.
module _ (refuses : List ℕ → Option Errno) (refuses_mode : Option Errno) where
  begun : Option Errno → Option Errno → Remote → Result (List ℕ × Remote)
  unfolding add_remote
  begun (some e) mode r = throw (errno e)
  begun none (some e) r = throw (errno e)
  begun none none r = do
    let r0 : Remote = record r { shared = record r.shared { writer_polled = some (r.address, 1) } }
    r1 ← add_remote r0
    r2 ← add_remote r1
    ok (magic_text, r2)

  -- `start` of a remote end, with the bytes that it has written.
  unfoldable pub start_remote : Remote → Result (List ℕ × Remote)
  unfolding begun
  start_remote r = begun (refuses magic_text) refuses_mode r

  -- Where write(2) takes the magic string whole and fcntl(2) succeeds, a new remote end writes
  -- bytes and waits for the handshake, polled for both descriptors; and a local end that reads
  -- those bytes, whatever comes after them, begins the handshake, if it has just begun to search
  -- for the magic string and no byte `S` comes before them.
  pub start_remote-detects :
      (r : Remote) (d : Detector) (pre post : List ℕ)
      → refuses magic_text ≡ none
      → refuses_mode ≡ none
      → r.state ≡ initial
      → d.magic_string ≡ magic_text
      → d.recognized_count ≡ 0
      → All (λ b. b ≢ b'S') pre
      → (bytes : List ℕ) × (r' : Remote) × (d' : Detector) × (signals : List Signal) × (start_remote
            r
          ≡ ok (bytes, r'))
        × (r'.state ≡ handshaking)
        × (r'.shared.poller.entries
            ≡ r.shared.poller.entries
              ++ (new_entry r.address 0 (wants true false)
                  ∷ new_entry r.address 1 (wants false false)
                  ∷ []))
        × (process_read_data (pre ++ (bytes ++ post)) d ≡ ok (d', signals))
        × (starts signals ≡ true)
  unfolding start_remote add_polled
  start_remote-detects r d pre post hw hm hs hd hc hp =
      let x = process_detects d b'S' _ pre post hd hc hp in
      let p0 = add_polled r.address 0 (wants true false) r.shared.poller in
      let r' : Remote = record r {
        state = handshaking;
        shared = record r.shared {
          writer_polled = some (r.address, 1);
          poller = add_polled r.address 1 (wants false false) p0;
        };
      } in
      (
        magic_text,
        r',
        x.0,
        x.1,
        rw (hw, hm, hs) refl,
        refl,
        append_assoc r.shared.poller.entries (new_entry r.address 0 (wants true false) ∷ [])
            (new_entry r.address 1 (wants false false) ∷ []),
        x.2,
        x.3,
      )
