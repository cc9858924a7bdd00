-- ===== src/Tunnel/Protocol.antt =====
-- The life of one link between the two ends of a tunnel: ListenSide and ConnectSide of
-- StdioTunnel.cpp with the messages that are under way between them, as a step relation. What a
-- message does to an end is a function, which Protocol/Refinement finds in the code.
pub mod Phases
pub mod Refinement
use tun.Prelude.{ℕ, ◌≡◌, List, [], ◌∷◌, ◌++◌, Bool, true, false, Option, none, some, if◌then◌else◌}

-- Messages about the link: LINK_CREATE, its answer, LINK_SEND or LINK_SEND_FOR_ACK, LINK_CLOSE and
-- LINK_ACK.
pub data Message : Type 0 where
  create : Message
  created : Bool → Message
  payload : List ℕ → Message
  close ack : Message

-- A link that is not there yet, one whose LINK_CREATE has no answer, one that is polled, one that
-- is being closed, one that is not there any more.
pub data End : Type 0 where
  fresh waiting open_end closing gone : End

pub record System : Type 0 where
  pub near : End
  pub far : End
  pub to_far : List Message
  pub to_near : List Message

-- The new end and what it sends; `none` is a message for a link that is not there.
abbrev pub Received : Type 0
Received = Option (End × List Message)

-- The part of both kinds, `processLinkMessage`. The flag is ACK_PACKETS.
unfoldable pub link_receive : Bool → End → Message → Received
link_receive acks fresh m = none
link_receive acks gone m = none
link_receive acks e create = none
link_receive acks e (created b) = none
link_receive acks e ack = some (e, [])
link_receive acks closing (payload bs) = some (closing, [])
link_receive acks e (payload bs) = some (e, if acks then ack ∷ [] else [])
link_receive acks closing close = some (gone, [])
link_receive acks e close = some (gone, close ∷ [])

-- `ListenSide::processMessage`
unfoldable pub near_receive : Bool → End → Message → Received
unfolding link_receive
near_receive acks waiting (created true) = some (open_end, [])
near_receive acks waiting (created false) = some (gone, [])
near_receive acks e m = link_receive acks e m

-- `ConnectSide::processMessage`; the first flag is whether it can connect.
unfoldable pub far_receive : Bool → Bool → End → Message → Received
unfolding link_receive
far_receive connects acks fresh create =
    some (if connects then open_end else gone, created connects ∷ [])
far_receive connects acks e m = link_receive acks e m

-- One step: a client comes, an end that is polled sends data or closes its link, or an end takes
-- the oldest message that is under way to it.
pub data Step (acks : Bool) (s : System) : System → Type 0 where
  accept :
      s.near ≡ fresh → Step acks s (record s { near = waiting; to_far = s.to_far ++ create ∷ [] })
  near_sends :
      (bs : List ℕ)
      → s.near ≡ open_end
      → Step acks s (record s { to_far = s.to_far ++ payload bs ∷ [] })
  near_closes :
      s.near ≡ open_end → Step acks s (record s { near = closing; to_far = s.to_far ++ close ∷ [] })
  far_sends :
      (bs : List ℕ)
      → s.far ≡ open_end
      → Step acks s (record s { to_near = s.to_near ++ payload bs ∷ [] })
  far_closes :
      s.far ≡ open_end → Step acks s (record s { far = closing; to_near = s.to_near ++ close ∷ [] })
  near_takes :
      {e : End} {m : Message} {rest sent : List Message}
      → s.to_near ≡ m ∷ rest
      → near_receive acks s.near m ≡ some (e, sent)
      → Step acks s (record s { near = e; to_near = rest; to_far = s.to_far ++ sent })
  far_takes :
      (connects : Bool) {e : End} {m : Message} {rest sent : List Message}
      → s.to_far ≡ m ∷ rest
      → far_receive connects acks s.far m ≡ some (e, sent)
      → Step acks s (record s { far = e; to_far = rest; to_near = s.to_near ++ sent })

abbrev pub start : System
start = record { near = fresh; far = fresh; to_far = []; to_near = [] }

pub data Reach (acks : Bool) : System → Type 0 where
  begin : Reach acks start
  next : {s t : System} → Reach acks s → Step acks s t → Reach acks t
