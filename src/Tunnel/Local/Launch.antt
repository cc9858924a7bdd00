-- ===== src/Tunnel/Local/Launch.antt =====
-- StdioTunnelLocal::start of StdioTunnel.cpp with forkpipe, up to the loop of the poller: the
-- connection command gets a terminal, or two pipes.
pub mod Pipes
pub mod Wired
pub mod Started
use tun.Prelude.{
  ℕ, List, [], ◌∷◌, Bool, true, false, not, ◌&&◌, Option, none, some, if◌then◌else◌, ◌⊎◌, inl, inr,
  ◌||◌,
}
use tun.Net.Result.{Result, ok, throw, undefined, Errno, errno, run_in_daemon, ◌>>=◌, ◌>>◌}
use tun.Tunnel.Spec.{ConnectionSpec}
use tun.Tunnel.Connection.{Attempt}
use tun.Tunnel.Side.{Opened}
use tun.Tunnel.Local.{Local, create_connections, start_polling}
use tun.Tunnel.Local.Launch.Pipes.{Descriptors}

-- fork(2): an error, the parent, or the child.
pub data Fork : Type 0 where
  not_forked : Errno → Fork
  parent child : Fork

-- `daemon`, with what chdir(2) makes of the root: the parent leaves by an exception. It is the
-- `detach` of startHandshaking.
unfoldable pub daemon : Fork → Option Errno → Result (Unit {0})
daemon (not_forked e) refused = throw (errno e)
daemon parent refused = throw run_in_daemon
daemon child none = ok tt
daemon child (some e) = throw (errno e)

module _ (d : Descriptors) where
  open d use {Table, pipe, close, dup2}

  -- `forkpipe`: -1, or the descriptors that the parent has for the child, each with the table of
  -- its process.
  pub data Piped : Type 0 where
    not_piped : Piped
    in_parent : ℕ → ℕ → Table → Piped
    in_child : Table → Piped

  -- After both pipes: `read_pipe` is `r0` and `r1`, `write_pipe` is `w0` and `w1`.
  unfoldable pub forked : Fork → ℕ → ℕ → ℕ → ℕ → Table → Piped
  forked (not_forked e) r0 r1 w0 w1 t = not_piped
  forked parent r0 r1 w0 w1 t = in_parent r0 w1 (close w0 (close r1 t))
  forked child r0 r1 w0 w1 t =
      let t1 = dup2 r1 1 (dup2 w0 0 t) in in_child (close r1 (close r0 (close w1 (close w0 t1))))

  second_pipe : Fork → ℕ → ℕ → Option (ℕ × ℕ × Table) → Piped
  unfolding forked
  second_pipe f r0 r1 none = not_piped
  second_pipe f r0 r1 (some (w0, w1, t)) = forked f r0 r1 w0 w1 t

  first_pipe : Fork → Option (ℕ × ℕ × Table) → Piped
  unfolding second_pipe
  first_pipe f none = not_piped
  first_pipe f (some (r0, r1, t)) = second_pipe f r0 r1 (pipe t)

  unfoldable pub forkpipe : Fork → Table → Piped
  unfolding first_pipe
  forkpipe f t = first_pipe f (pipe t)

-- What the terminal of forkpty(3) starts with: no modes, those of standard input, or raw ones.
pub data Modes : Type 0 where
  no_modes same_modes raw_modes : Modes

unfoldable pub modes_of : Bool → Bool → Modes
modes_of expects_pipe is_terminal =
    if expects_pipe && is_terminal then raw_modes else if is_terminal then same_modes else no_modes

-- forkpty(3): as fork(2), with the descriptor of the terminal in the parent.
pub data ForkPty : Type 0 where
  pty_failed : Errno → ForkPty
  pty_parent : ℕ → ForkPty
  pty_child : ForkPty

-- How `start` goes on: in the child, which runs the command, or in the parent with `m_read_fd` and
-- `m_write_fd`.
pub data Launched : Type 0 where
  runs_command : Launched
  reads_writes : ℕ → ℕ → Launched

module _ (d : Descriptors) where
  -- `e` is `errno` where forkpipe fails.
  unfoldable pub launch_piped : Errno → Piped d → Result Launched
  launch_piped e not_piped = throw (errno e)
  launch_piped e (in_parent r w t) = ok (reads_writes r w)
  launch_piped e (in_child t) = ok runs_command

-- `dup m_read_fd`
unfoldable pub duplicated : ℕ → ℕ ⊎ Errno → Result Launched
duplicated fd (inl copy) = ok (reads_writes fd copy)
duplicated fd (inr e) = throw (errno e)

unfoldable pub launch_pty : (ℕ → ℕ ⊎ Errno) → ForkPty → Result Launched
unfolding duplicated
launch_pty dup (pty_failed e) = throw (errno e)
launch_pty dup (pty_parent fd) = duplicated fd (dup fd)
launch_pty dup pty_child = ok runs_command

-- The choice of `start`; `have_forkpty` is HAVE_FORKPTY of the build, and the two ways are given.
unfoldable pub launch :
    Bool → Bool → Bool → Bool → Result Launched → (Modes → Result Launched) → Result Launched
unfolding modes_of
launch have_forkpty force_pipe expects_pipe is_terminal by_pipe by_pty =
    if not have_forkpty || force_pipe then by_pipe else by_pty (modes_of expects_pipe is_terminal)

-- What follows in the parent; `refuses_mode` is what fcntl(2) makes of each descriptor.
module _ (refuses_mode : ℕ → Option Errno) (open_listener : ConnectionSpec → Opened)
    (attempt : ConnectionSpec → Attempt) where
  set_mode : Option Errno → Result (Unit {0})
  set_mode none = ok tt
  set_mode (some e) = throw (errno e)

  unfoldable pub non_blocking : List ℕ → Result (Unit {0})
  unfolding set_mode
  non_blocking [] = ok tt
  non_blocking (fd ∷ fds) = set_mode (refuses_mode fd) >> non_blocking fds

  -- `start` in the parent, up to the loop of the poller.
  unfoldable pub start_parent : ℕ → ℕ → List ConnectionSpec → Local → Result Local
  unfolding non_blocking
  start_parent read_fd write_fd specs t = do
    t1 ←
        create_connections open_listener attempt 0 specs
          (record t { read_fd = read_fd; write_fd = write_fd })
    non_blocking (read_fd ∷ write_fd ∷ 0 ∷ 1 ∷ [])
    start_polling t1

  -- `start`: in the child, the command has the process from here on.
  unfoldable pub start_local : List ConnectionSpec → Local → Result Launched → Result (Option Local)
  unfolding start_parent
  start_local specs t (throw e) = throw e
  start_local specs t undefined = undefined
  start_local specs t (ok runs_command) = ok none
  start_local specs t (ok (reads_writes r w)) = start_parent r w specs t >>= λ t'. ok (some t')
