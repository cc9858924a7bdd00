-- ===== src/Tests/LinkTests.antt =====
-- The theorems on links at concrete inputs.
use tun.Prelude.{
  ℕ, ◌≡◌, refl, sym, ap, ◌∙◌, List, [], ◌∷◌, ◌++◌, true, false, Option, some, none, ◌==◌,
  if◌then◌else◌, arith,
}
use tun.Net.Result.{ok, Errno}
use tun.Net.WriteStream
use tun.Net.ReadStream
use tun.Net.Poller
use tun.Tunnel.Spec.{ConnectionSpec, connect, listen}
use tun.Tunnel.Side.Listener.{Sockets, IsBound, initialize, initialize-IsBound}
use tun.Tunnel.Link.{ConnectionLink, Shared, write_data_message, link_ack}
use tun.Tunnel.Link.Messages.{arriving, data_bytes}
use tun.Tunnel.Connection.{
  Connection, find_link, connect_process_message, process_link_message, Attempt, no_host,
  remote_report_error,
}
use tun.Tunnel.Connection.Delivery.{body, connect-unknown}
use tun.Tunnel.Connection.Closing.{Ends, IsQuiet, closing-Quiet}

abbrev shared : Shared
unfolding WriteStream.fresh ReadStream.fresh Poller.fresh
shared = record {
  writer = WriteStream.fresh;
  writer_polled = some (1, 5);
  reader = ReadStream.fresh;
  poller = Poller.fresh;
  closed = [];
}

abbrev link : ConnectionLink
link = record {
  address = 70;
  socket = 9;
  link_id = 501;
  buffer = record { queue = []; output = [] };
  closing = false;
  acknowledged = true;
}

abbrev spec : ConnectionSpec
spec = record {
  connection_type = connect;
  connect_host = b'd' ∷ b'b' ∷ [];
  connect_port = 5432;
  listen_port = 8080;
  flags = 1;
}

abbrev connection : Connection
connection = record { spec = spec; id = 0; link_map = link ∷ [] }

abbrev hello : List ℕ
hello = b'h' ∷ b'i' ∷ []

abbrev unreachable : ConnectionSpec → Attempt
unreachable s = no_host

found : find_link 501 (link ∷ []) ≡ some link
unfolding find_link
found = refl

missing : find_link 502 (link ∷ []) ≡ none
unfolding find_link
missing = refl

connect-unknown_example :
    connect_process_message unreachable
      (λ a. remote_report_error hello)
      connection
      (arriving (body (write_data_message 0 0 502 hello WriteStream.fresh) ++ 1 ∷ []) shared)
    ≡ ok (connection, arriving (data_bytes hello ++ 1 ∷ []) shared)
connect-unknown_example =
    connect-unknown unreachable (λ a. remote_report_error hello) 0 502 hello (1 ∷ []) connection
      shared missing

abbrev closing_link : ConnectionLink
closing_link = record link { closing = true }

closing-Quiet_example :
    Ends
      (λ (x : Connection × Shared). IsQuiet shared x.1)
      (process_link_message connection link_ack closing_link shared)
closing-Quiet_example = closing-Quiet connection link_ack closing_link shared refl

-- The address and the port of each socket; socket(2) gives descriptor 7.
abbrev Bindings : Type 0
Bindings = ℕ → Option (ℕ × ℕ)

abbrev bind_one : ℕ → ℕ → ℕ → Bindings → Option Errno × Bindings
bind_one fd address port w = (none, λ j. if fd == j then some (address, port) else w j)

bind_one-binds :
    (fd address port : ℕ) (w w' : Bindings)
    → bind_one fd address port w ≡ (none, w')
    → w' fd ≡ some (address, port)
bind_one-binds fd address port w w' e =
    sym (ap (λ (x : Option Errno × Bindings). x.1 fd) e) ∙ ground arith

abbrev sockets : Sockets
sockets = record {
  World = Bindings;
  bound = λ w. w;
  socket = λ w. (some 7, w);
  bind = bind_one;
  fcntl = λ fd w. (true, w);
  listen = λ fd n w. (true, w);
  bind_bound = bind_one-binds;
  fcntl_bound = λ fd w. refl;
  listen_bound = λ fd n w. refl;
}

abbrev local_only : ConnectionSpec
local_only = record {
  connection_type = listen;
  connect_host = b'd' ∷ [];
  connect_port = 5432;
  listen_port = 8080;
  flags = 1;
}

initialize-IsBound_example :
    IsBound sockets 70 local_only (initialize sockets 70 local_only (λ fd. none))
initialize-IsBound_example = initialize-IsBound sockets 70 local_only (λ fd. none)
