-- ===== src/Tests/OptionsTests.antt =====
-- Command lines, and the theorems on them at concrete inputs.
use tun.Prelude.{ℕ, ◌≡◌, refl, List, [], ◌∷◌, Bool, true, some, Option}
use tun.Net.Result.{Result, ok, ◌>>=◌}
use tun.Tunnel.Spec.{connect, is_socks5}
use tun.Tunnel.Spec.Parse.{parse_connection, split_fields, parse_spec, atoi}
use tun.Tunnel.Options.{
  Config, Probe, bound, create_tunnel, new_config, checked_config, configure_args, takes_value,
}
use tun.Tunnel.Options.Arguments.{
  apart, connect_item, silent_item, arguments, applied, create_tunnel-arguments,
}
use tun.Tunnel.Main.{Ends, main, main-Ends}
use tun.Tunnel.Options.Configured.{IsConfigured, create_tunnel-IsConfigured}

abbrev free : Bool → ℕ → Probe
free any port = bound

-- `80:h:22`
abbrev web : List ℕ
web = b'8' ∷ b'0' ∷ b':' ∷ b'h' ∷ b':' ∷ b'2' ∷ b'2' ∷ []

abbrev ssh : List (List ℕ)
ssh = (b's' ∷ b's' ∷ b'h' ∷ []) ∷ []

-- `-s -L 80:h:22 -- ssh`
abbrev args : List (List ℕ)
args = arguments (silent_item ∷ connect_item (apart web) ∷ []) ssh

abbrev configured : Config
unfolding new_config
configured = record new_config {
  command = some ssh;
  specs =
      record {
        connection_type = connect;
        connect_host = b'h' ∷ [];
        connect_port = 22;
        listen_port = 80;
        flags = 0;
      }
      ∷ [];
  silent = true;
}

accepts : create_tunnel free args ≡ ok (some configured)
unfolding create_tunnel new_config configured configure_args takes_value parse_connection
    split_fields parse_spec atoi is_socks5
accepts = refl

create_tunnel-arguments_example :
    create_tunnel free args
    ≡ applied free (silent_item ∷ connect_item (apart web) ∷ []) new_config >>= λ a.
        checked_config (record a { command = some ssh }) >>= λ b. ok (some b)
create_tunnel-arguments_example =
    create_tunnel-arguments free (silent_item ∷ connect_item (apart web) ∷ []) ssh

create_tunnel-IsConfigured_example : IsConfigured configured
create_tunnel-IsConfigured_example = create_tunnel-IsConfigured free args configured accepts

no_run : Option Config → Result (Unit {0})
no_run c = ok tt

main-Ends_example : Ends free no_run args (main free no_run args)
main-Ends_example = main-Ends free no_run args
