-- ===== src/Tunnel/Terminal.antt =====
-- The terminal modes of standard input in StdioTunnel.cpp: cfmakeraw, the constructor and the
-- destructor of StdioTunnel, and the change in startHandshaking.
use tun.Prelude.{List, [], ◌∷◌, ℕ, ◌≡◌, ◌≢◌, refl, ◌∙◌, Bool, true, false, Option, none, some}
use tun.Net.Result.{Result, ok, undefined, ◌>>=◌}

-- The flags of `struct termios` that cfmakeraw changes, the character size, and the rest.
pub record Termios : Type 0 where
  pub ignbrk : Bool
  pub brkint : Bool
  pub parmrk : Bool
  pub istrip : Bool
  pub inlcr : Bool
  pub igncr : Bool
  pub icrnl : Bool
  pub ixon : Bool
  pub opost : Bool
  pub echo : Bool
  pub echonl : Bool
  pub icanon : Bool
  pub isig : Bool
  pub iexten : Bool
  pub parenb : Bool
  pub csize : ℕ
  pub others : ℕ

-- `CS8`
abbrev pub cs8 : ℕ
cs8 = 8

unfoldable pub cfmakeraw : Termios → Termios
cfmakeraw t = record t {
  ignbrk = false;
  brkint = false;
  parmrk = false;
  istrip = false;
  inlcr = false;
  igncr = false;
  icrnl = false;
  ixon = false;
  opost = false;
  echo = false;
  echonl = false;
  icanon = false;
  isig = false;
  iexten = false;
  parenb = false;
  csize = cs8;
}

-- tcgetattr(3) and tcsetattr(3) on standard input, and fcntl(2) that makes a descriptor blocking;
-- `tcgetattr` is `none` where standard input is no terminal.
pub record Terminals : Type 1 where
  pub World : Type 0
  pub tcgetattr : World → Option Termios
  pub tcsetattr : Termios → World → World
  pub block : ℕ → World → World
  pub set_modes :
      (m : Termios) (w : World) → tcgetattr w ≢ none → tcgetattr (tcsetattr m w) ≡ some m
  pub block_modes : (fd : ℕ) (w : World) → tcgetattr (block fd w) ≡ tcgetattr w

-- `m_is_terminal` and `m_termios`; `none` is a member that was never given a value.
pub record Tty : Type 0 where
  pub is_terminal : Option Bool
  pub termios : Option Termios

-- Raw but for the signals.
abbrev pub signal_modes : Termios → Termios
signal_modes m = record (cfmakeraw m) { isig = true }

-- What startHandshaking gives to tcsetattr(3), if anything; to read a member without a value is
-- undefined.
unfoldable pub given_modes : Option Bool → Option Termios → Result (List Termios)
given_modes none m = undefined
given_modes (some false) m = ok []
given_modes (some true) none = undefined
given_modes (some true) (some m) = ok (signal_modes m ∷ [])

module _ (k : Terminals) where
  open k use {World, tcgetattr, tcsetattr, block}

  opened_terminal : Option Termios → World → Tty × World
  opened_terminal none w = (record { is_terminal = none; termios = none }, w)
  opened_terminal (some m) w =
      (record { is_terminal = some true; termios = some m }, tcsetattr (cfmakeraw m) w)

  -- The constructor.
  unfoldable pub open_terminal : World → Tty × World
  unfolding opened_terminal
  open_terminal w = opened_terminal (tcgetattr w) w

  -- `if (m_is_terminal)` with what is done to the saved modes; to read a member without a value is
  -- undefined.
  if_terminal : Option Bool → Option Termios → (Termios → World → World) → World → Result World
  if_terminal none m change w = undefined
  if_terminal (some false) m change w = ok w
  if_terminal (some true) none change w = undefined
  if_terminal (some true) (some m) change w = ok (change m w)

  -- startHandshaking: raw but for the signals.
  unfoldable pub enable_signals : Tty → World → Result World
  unfolding if_terminal
  enable_signals t w =
      if_terminal t.is_terminal t.termios
        (λ m w. tcsetattr (record (cfmakeraw m) { isig = true }) w) w

  -- The destructor.
  unfoldable pub close_terminal : Tty → World → Result World
  unfolding if_terminal
  close_terminal t w =
      if_terminal t.is_terminal t.termios tcsetattr w >>= λ w'. ok (block 1 (block 0 w'))

  -- The modes while a tunnel lives, and after it.
  pub record IsRestored (m : Termios) (w : World) : Type 0 where
    pub after_open : tcgetattr ((open_terminal w).1) ≡ some (cfmakeraw m)
    pub shaken : World
    pub in_handshake : enable_signals ((open_terminal w).0) ((open_terminal w).1) ≡ ok shaken
    pub after_handshake : tcgetattr shaken ≡ some (record (cfmakeraw m) { isig = true })
    pub closed : World
    pub after_close : close_terminal ((open_terminal w).0) ((open_terminal w).1) ≡ ok closed
    pub restored : tcgetattr closed ≡ some m
    pub closed_late : World
    pub after_both : close_terminal ((open_terminal w).0) shaken ≡ ok closed_late
    pub restored_late : tcgetattr closed_late ≡ some m

  -- What happens by whether standard input is a terminal.
  abbrev pub Terminates : World → Option Termios → Type 0
  Terminates w (some m) = IsRestored m w
  Terminates w none =
      (enable_signals ((open_terminal w).0) ((open_terminal w).1) ≡ undefined)
      × (close_terminal ((open_terminal w).0) ((open_terminal w).1) ≡ undefined)

  modes_after :
      (m : Termios) (w : World)
      → tcgetattr w ≢ none
      → tcgetattr (block 1 (block 0 (tcsetattr m w))) ≡ some m
  modes_after m w h =
      k.block_modes 1 (block 0 (tcsetattr m w))
      ∙ k.block_modes 0 (tcsetattr m w)
      ∙ k.set_modes m w h

  by_modes : (w : World) (x : Option Termios) → tcgetattr w ≡ x → Terminates w x
  unfolding open_terminal enable_signals close_terminal
  by_modes w none e = rw e (refl, refl)
  by_modes w (some m) e =
      let on : tcgetattr w ≢ none = λ h. cc in
      let raw : tcgetattr (tcsetattr (cfmakeraw m) w) ≡ some (cfmakeraw m) =
        k.set_modes (cfmakeraw m) w on in
      let w1 : World = tcsetattr (cfmakeraw m) w in
      let on1 : tcgetattr w1 ≢ none = λ h. cc in
      let m2 : Termios = record (cfmakeraw m) { isig = true } in
      let late : tcgetattr (tcsetattr m2 w1) ≡ some m2 = k.set_modes m2 w1 on1 in
      let on2 : tcgetattr (tcsetattr m2 w1) ≢ none = λ h. cc in
      record {
        after_open = rw e raw;
        shaken = tcsetattr m2 w1;
        in_handshake = rw e refl;
        after_handshake = late;
        closed = block 1 (block 0 (tcsetattr m w1));
        after_close = rw e refl;
        restored = modes_after m w1 on1;
        closed_late = block 1 (block 0 (tcsetattr m (tcsetattr m2 w1)));
        after_both = rw e refl;
        restored_late = modes_after m (tcsetattr m2 w1) on2;
      }

  -- Where standard input is a terminal, the constructor makes it raw, startHandshaking leaves it raw
  -- but for the signals, and the destructor gives it the modes of the start, after a handshake or
  -- without one. Where it is no terminal, startHandshaking and the destructor read `m_is_terminal`,
  -- which has no value, so that their behaviour is undefined.
  pub terminal-Terminates : (w : World) → Terminates w (tcgetattr w)
  terminal-Terminates w = by_modes w (tcgetattr w) refl
