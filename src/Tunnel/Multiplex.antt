-- ===== src/Tunnel/Multiplex.antt =====
-- The links of all connections over one pair of streams: data messages for any links, mixed in any
-- way, from the writer of one end to the buffers of the links at the other.
pub mod Take
pub mod Steps
pub mod Runs
pub mod Ends
pub mod Arrivals
pub mod RemoteEnd
pub mod LocalEnd
pub mod Sender
pub mod Channel
use tun.Prelude.{
  ℕ, ◌<◌, ◌≤◌, ◌≡◌, ◌≢◌, refl, sym, ap, ◌∙◌, List, [], ◌∷◌, ◌++◌, append_assoc, append-nil, Bool,
  true, false, Bool-cases, inl, inr, ◌&&◌, Option, none, some, length, arith, All, ◌==◌,
  if◌then◌else◌,
}
use tun.Net.SockBuffer.Order.{contents}
use tun.Tunnel.Link.{ConnectionLink, send_command}
use tun.Tunnel.Link.Messages.{message_bytes, data_bytes}
use tun.Tunnel.Connection.{Connection, find_link, put_link}
use tun.Tunnel.Connection.Links.{find_link-put_link}
use tun.Tunnel.Side.{Side, listening, connecting}
use tun.Tunnel.Remote.{find_side, put_side}
use tun.Tunnel.Local.{side_connection}

-- One message of `sendData`: the flags of the sender's spec, the id of the connection, the id of
-- the link, and the bytes.
pub record Piece : Type 0 where
  pub flags : ℕ
  pub id : ℕ
  pub link_id : ℕ
  pub bytes : List ℕ

abbrev pub piece_bytes : Piece → List ℕ
piece_bytes p = message_bytes p.id (send_command p.flags) p.link_id (data_bytes p.bytes)

-- The ids are those of `find`, and there are no more bytes than `polled` reads at a time.
pub record IsSmall (p : Piece) : Type 0 where
  pub small_id : p.id < 32768
  pub small_link : p.link_id < 65536
  pub small_bytes : length p.bytes ≤ 4096

-- What the pieces have for one link, in their order.
abbrev pub for_link : ℕ → ℕ → List Piece → List ℕ
for_link id i [] = []
for_link id i (p ∷ ps) = (if p.id == id && p.link_id == i then p.bytes else []) ++ for_link id i ps

pub for_link-append :
    (id i : ℕ) (ps qs : List Piece)
    → for_link id i (ps ++ qs) ≡ for_link id i ps ++ for_link id i qs
for_link-append id i [] qs = refl
for_link-append id i (p ∷ ps) qs =
    let xs : List ℕ = if p.id == id && p.link_id == i then p.bytes else [] in
    ap (◌++◌ xs) (for_link-append id i ps qs)
    ∙ sym (append_assoc xs (for_link id i ps) (for_link id i qs))

-- What waits in a link's buffer for its descriptor; `none` where there is no link, or it is being
-- closed.
abbrev pub unless_closing : Bool → List ℕ → Option (List ℕ)
unless_closing true xs = none
unless_closing false xs = some xs

abbrev pub contents_of : Option ConnectionLink → Option (List ℕ)
contents_of none = none
contents_of (some l) = unless_closing l.closing (contents l.buffer)

abbrev pub links_of : Option Side → List ConnectionLink
links_of none = []
links_of (some side) = (side_connection side).link_map

abbrev pub waiting : List (ℕ × Side) → ℕ → ℕ → Option (List ℕ)
waiting sides id i = contents_of (find_link i (links_of (find_side id sides)))

abbrev pub appended : List ℕ → Option (List ℕ) → Option (List ℕ)
appended xs none = none
appended xs (some ys) = some (ys ++ xs)

pub appended-nil : (o : Option (List ℕ)) → appended [] o ≡ o
appended-nil none = refl
appended-nil (some ys) = ap some (append-nil ys)

pub appended-append :
    (xs ys : List ℕ) (o : Option (List ℕ)) → appended ys (appended xs o) ≡ appended (xs ++ ys) o
appended-append xs ys none = refl
appended-append xs ys (some zs) = ap some (append_assoc zs xs ys)

pub appended-ne-none : (xs : List ℕ) (o : Option (List ℕ)) → o ≢ none → appended xs o ≢ none
appended-ne-none xs none h = h
appended-ne-none xs (some ys) h = λ e. cc

-- The piece is small, and its link is there and not being closed.
abbrev pub IsKnown : List (ℕ × Side) → Piece → Type 0
IsKnown sides p = IsSmall p × (waiting sides p.id p.link_id ≢ none)

pub find_side-put_side :
    (id j : ℕ) (side : Side) (sides : List (ℕ × Side))
    → find_side j (put_side id side sides) ≡ (if id == j then some side else find_side j sides)
unfolding find_side put_side
find_side-put_side id j side [] = refl
find_side-put_side id j side ((k, x) ∷ rest) = ground (arith, find_side-put_side id j side rest)

-- The two objects that a known piece is for.
pub record Found (sides : List (ℕ × Side)) (id i : ℕ) : Type 0 where
  pub side : Side
  pub link : ConnectionLink
  pub there : find_side id sides ≡ some side
  pub found : find_link i (side_connection side).link_map ≡ some link
  pub is_open : link.closing ≡ false

link-Found :
    (sides : List (ℕ × Side)) (id i : ℕ) (side : Side) (o : Option ConnectionLink)
    → find_side id sides ≡ some side
    → find_link i (side_connection side).link_map ≡ o
    → contents_of o ≢ none
    → Found sides id i
link-Found sides id i side none h g k = absurd (k refl)
link-Found sides id i side (some l) h g k = elim (Bool-cases l.closing) [
  | inl e ↦ absurd (k (rw e refl))
  | inr e ↦ record { side = side; link = l; there = h; found = g; is_open = e }
]

side-Found :
    (sides : List (ℕ × Side)) (id i : ℕ) (o : Option Side)
    → find_side id sides ≡ o
    → contents_of (find_link i (links_of o)) ≢ none
    → Found sides id i
unfolding find_link
side-Found sides id i none h k = absurd (k refl)
side-Found sides id i (some side) h k =
    link-Found sides id i side (find_link i (side_connection side).link_map) h refl k

pub found_lem : (sides : List (ℕ × Side)) (id i : ℕ) → waiting sides id i ≢ none → Found sides id i
found_lem sides id i k = side-Found sides id i (find_side id sides) refl k
