-- ===== src/Tunnel/Connection/Closing.antt =====
-- A link that is being closed: its descriptor is closed, so nothing may use it any more.
use tun.Prelude.{ℕ, ◌≡◌, refl, Bool, true, false, ◌==◌, Bool-cases, inl, inr, to_int}
use tun.Net.Result.{Result, ok, throw, undefined, Error, require, ◌>>=◌, ◌>>◌}
use tun.Net.ReadStream.{ReadStream}
use tun.Net.ReadStream.Values.{read_short, read_bytes}
use tun.Tunnel.Link.{
  ConnectionLink, Shared, close_link, receive_data, set_acknowledged, link_send, link_close,
  link_send_for_ack, link_ack, reading,
}
use tun.Tunnel.Connection.{Connection, process_link_message}

-- Everything but the reader is as it was.
abbrev pub IsQuiet : Shared → Shared → Type 0
IsQuiet s s' =
    (s'.poller ≡ s.poller)
    × (s'.closed ≡ s.closed)
    × (s'.writer ≡ s.writer)
    × (s'.writer_polled ≡ s.writer_polled)

-- If it returns, then with a value that `P` holds of.
abbrev pub Ends : {A : Type 0} → (A → Type 0) → Result A → Type 0
Ends P (ok a) = P a
Ends P (throw e) = Unit
Ends P undefined = Unit

Ends-bind :
    {A B : Type 0} (P : A → Type 0) (Q : B → Type 0) (m : Result A) (f : A → Result B)
    → Ends P m
    → ((a : A) → P a → Ends Q (f a))
    → Ends Q (m >>= f)
Ends-bind P Q (ok a) f h g = g a h
Ends-bind P Q (throw e) f h g = tt
Ends-bind P Q undefined f h g = tt

Ends-require :
    {B : Type 0} (Q : B → Type 0) (b : Bool) (e : Error) (m : Result B)
    → Ends Q m
    → Ends Q (require b e >> m)
Ends-require Q true e m h = h
Ends-require Q false e m h = tt

abbrev Quiet : {A : Type 0} → Shared → A × Shared → Type 0
Quiet s x = IsQuiet s x.1

-- The link is still being closed.
abbrev QuietLink : Shared → ConnectionLink × Shared → Type 0
QuietLink s x = (x.0.closing ≡ true) × IsQuiet s x.1

read_Quiet :
    {A : Type 0} (s s' : Shared)
    → IsQuiet s s'
    → (x : Result (A × ReadStream))
    → Ends (Quiet s) (x >>= λ (a, r). ok (a, record s' { reader = r }))
read_Quiet s s' h (ok (a, r)) = h
read_Quiet s s' h (throw e) = tt
read_Quiet s s' h undefined = tt

receive_data-Quiet :
    (l : ConnectionLink) (s : Shared) → l.closing ≡ true → Ends (QuietLink s) (receive_data l s)
unfolding receive_data
receive_data-Quiet l s h =
    Ends-bind (Quiet s) (QuietLink s) (reading read_short s) _
      (read_Quiet s s (refl, refl, refl, refl) (read_short s.reader))
      (λ (n, s1) q. Ends-require (QuietLink s) _ _ _ (
        Ends-bind (Quiet s) (QuietLink s) (reading (read_bytes (to_int n)) s1) _
          (read_Quiet s s1 q (read_bytes (to_int n) s1.reader))
          (λ (bytes, s2) q'. rw h (refl, q'))))

-- Whatever message comes for a link that is being closed, processLinkMessage, if it returns, has
-- left the poller, the descriptors and the writer alone: the link's descriptor, which is closed
-- and may belong to another file by now, is not polled or closed again, and nothing is sent.
pub closing-Quiet :
    (c : Connection) (command : ℕ) (l : ConnectionLink) (s : Shared)
    → l.closing ≡ true
    → Ends (λ (x : Connection × Shared). IsQuiet s x.1) (process_link_message c command l s)
unfolding process_link_message close_link set_acknowledged
closing-Quiet c command l s h =
    let received = receive_data-Quiet l s h in
    elim (Bool-cases (command == link_send)) [
      | inl e1 ↦
          rw e1 (Ends-bind (QuietLink s) (Quiet s) (receive_data l s) _ received (λ x q. q.1))
      | inr e1 ↦ rw e1 (elim (Bool-cases (command == link_close)) [
        | inl e2 ↦ rw (e2, h) (refl, refl, refl, refl)
        | inr e2 ↦ rw e2 (elim (Bool-cases (command == link_send_for_ack)) [
          | inl e3 ↦ rw e3 (
              Ends-bind (QuietLink s) (Quiet s) (receive_data l s >>= _) _
                (Ends-bind (QuietLink s) (QuietLink s) (receive_data l s) _ received
                  (λ x q. rw q.0 (refl, q.1)))
                (λ x q. q.1))
          | inr e3 ↦ rw e3 (elim (Bool-cases (command == link_ack)) [
            | inl e4 ↦ rw (e4, h) (refl, refl, refl, refl)
            | inr e4 ↦ rw e4 (refl, refl, refl, refl)
          ])
        ])
      ])
    ]
