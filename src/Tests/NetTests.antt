-- ===== src/Tests/NetTests.antt =====
-- The theorems of Net at concrete inputs.
use tun.Prelude.{
  ℕ, ◌+◌, ◌≡◌, ◌≢◌, refl, List, [], ◌∷◌, ◌++◌, length, concat, arith, true, false, none,
  if◌then◌else◌, ◌==◌,
}
use tun.Net.Result.{Result, ok, undefined, ◌>>=◌}
use tun.Net.Kernel.{Events}
use tun.Net.WriteStream
use tun.Net.WriteStream.{WriteStream, WritePacket}
use tun.Net.WriteStream.Packets.{frames}
use tun.Net.ReadStream
use tun.Net.ReadStream.{ReadStream, fill}
use tun.Net.ReadStream.Frames.{IsValid}
use tun.Net.ReadStream.Delivery.{fill-ne-undefined, fill_stalls}
use tun.Net.Transfer.{Act, post, flush, posted, run_sender, run_receiver, transfer}
use tun.Net.SockBuffer
use tun.Net.SockBuffer.{SockBuffer}
use tun.Net.SockBuffer.Order.{contents, read_data-contents, read_data-ne-none}
use tun.Net.Poller
use tun.Net.Poller.{Poller, Op, removes, adds, PollResult, ready, set_revents}
use tun.Net.Poller.Entries.{Entry, no_events, new_entry}
use tun.Net.Poller.Visits.{walk, Agrees, poll_once-walk}
use tun.Tests.Channel.{Wire, fours, blank, fours_end}

abbrev readable : Events
readable = record no_events { pollin = true }

abbrev writable : Events
writable = record no_events { pollout = true }

abbrev acts : List Act
acts =
    post (7 ∷ 8 ∷ 9 ∷ 10 ∷ [])
    ∷ post []
    ∷ post (11 ∷ 12 ∷ 13 ∷ 14 ∷ 15 ∷ [])
    ∷ flush writable writable
    ∷ flush writable writable
    ∷ flush writable writable
    ∷ []

abbrev sent_bytes : List ℕ
sent_bytes = 0 ∷ 0 ∷ 0 ∷ 4 ∷ 7 ∷ 8 ∷ 9 ∷ 10 ∷ 0 ∷ 0 ∷ 0 ∷ 5 ∷ []

-- The last packet has its five bytes left to write.
abbrev sender_end : WriteStream
sender_end = record {
  queue = [];
  packet_queue = record { buf = 0 ∷ 0 ∷ 0 ∷ 5 ∷ 11 ∷ 12 ∷ 13 ∷ 14 ∷ 15 ∷ []; written = 4 } ∷ [];
}

abbrev receiver_end : ReadStream
receiver_end = record {
  queue = 7 ∷ 8 ∷ 9 ∷ 10 ∷ [];
  read_buf = 0 ∷ 0 ∷ 0 ∷ 5 ∷ [];
  read_size = 4096;
}

sender_run :
    run_sender fours 1 acts WriteStream.fresh blank
    ≡ ok (sender_end, record { inbox = []; outbox = sent_bytes })
unfolding run_sender WriteStream.empty WriteStream.send_packet WriteStream.send
    WriteStream.write_bytes WriteStream.write_packet WriteStream.fresh WriteStream.pending_write
sender_run = refl

receiver_run :
    run_receiver fours 0
      (readable ∷ readable ∷ [])
      ReadStream.fresh
      (record { inbox = sent_bytes; outbox = [] })
    ≡ ok (receiver_end, blank)
unfolding run_receiver ReadStream.fill ReadStream.fill_header ReadStream.fill_body ReadStream.finish
    ReadStream.fresh
receiver_run = refl

transfer_example :
    (done : List (List ℕ)) × (ahead : List (List ℕ)) × (posted acts ≡ done ++ ahead)
    × ((7 ∷ 8 ∷ 9 ∷ 10 ∷ []) ≡ concat done)
    × ((0 ∷ 0 ∷ 0 ∷ 5 ∷ 11 ∷ 12 ∷ 13 ∷ 14 ∷ 15 ∷ []) ≡ frames ahead)
transfer_example =
    transfer fours fours 1 0 acts (readable ∷ readable ∷ []) blank
      (record { inbox = []; outbox = sent_bytes }) (record { inbox = sent_bytes; outbox = [] })
      blank sender_end receiver_end refl sender_run refl (omega arith) receiver_run

receiver_end-IsValid : IsValid receiver_end
receiver_end-IsValid = record { room = omega arith; within = omega arith; begun = omega arith }

abbrev last_byte : Wire
last_byte = record { inbox = 9 ∷ []; outbox = [] }

fill-ne-undefined_example : fill fours 0 readable receiver_end last_byte ≢ undefined
fill-ne-undefined_example =
    fill-ne-undefined fours 0 receiver_end readable last_byte receiver_end-IsValid

fill_stalls_example : fill fours 0 readable receiver_end blank ≡ ok (receiver_end, blank)
fill_stalls_example =
    fill_stalls fours 0 receiver_end 0 0 0 5 [] readable blank (fours_end 0) refl (omega arith)
      (omega arith) (omega arith)

abbrev no_process : List ℕ → Unit {0} → Result (Unit {0})
no_process bs h = ok tt

abbrev holding_two : SockBuffer
holding_two = record { queue = 2 ∷ []; output = 1 ∷ [] }

abbrev holding_five : SockBuffer
holding_five = record { queue = 2 ∷ 3 ∷ 4 ∷ 5 ∷ []; output = 1 ∷ [] }

abbrev three_in : Wire
three_in = record { inbox = 3 ∷ 4 ∷ 5 ∷ []; outbox = [] }

read_data-contents_example :
    (contents holding_five ++ [] ≡ contents holding_two ++ three_in.inbox)
    × (length (contents holding_five) ≡ length (contents holding_two) + 3)
unfolding SockBuffer.read_data SockBuffer.read_round SockBuffer.push_on_buffer
read_data-contents_example =
    read_data-contents fours 0 no_process 4 holding_two holding_five tt tt three_in blank 3 refl
      (omega arith)

read_data-ne-none_example :
    SockBuffer.read_data fours no_process 4 0 0 holding_two tt three_in ≢ none
read_data-ne-none_example =
    read_data-ne-none fours 0 no_process 4 holding_two tt three_in (omega arith)

-- Object 1 removes itself and object 2, and registers object 4.
abbrev objects : Poller
objects = record {
  entries = new_entry 1 11 readable ∷ new_entry 2 12 readable ∷ new_entry 3 13 readable ∷ [];
  size = 10;
  orig_size = 0;
  next_index = 0;
  finishing = false;
}

abbrev calls : Entry → List ℕ → Result (List Op × List ℕ)
calls e log = ok (
  if e.polled == 1 then removes 1 11 ∷ removes 2 12 ∷ adds 4 14 readable ∷ [] else [],
  log ++ e.polled ∷ [],
)

abbrev all_ready : List (ℕ × Events) → List ℕ → PollResult × List ℕ
all_ready fds log = (ready (readable ∷ readable ∷ readable ∷ []), log)

poll_once-walk_example :
    Agrees calls (Poller.poll_once calls all_ready objects [] >>= λ (r, p', w''). ok (p', w'')) (
      walk calls 3
        (record {
          seen = [];
          todo = set_revents objects.entries (readable ∷ readable ∷ readable ∷ []);
          added = [];
        })
        [])
unfolding set_revents
poll_once-walk_example =
    poll_once-walk calls all_ready objects [] [] (readable ∷ readable ∷ readable ∷ []) refl

-- Objects 1 and 3 are called; 2 is gone before its turn, and 4 waits.
called : (Poller.poll_once calls all_ready objects [] >>= λ (r, p', w). ok w) ≡ ok (1 ∷ 3 ∷ [])
unfolding Poller.poll_once Poller.traverse Poller.apply_all Poller.apply Poller.remove_polled
    Poller.add_polled tun.Net.Poller.Entries.find_polled tun.Net.Poller.Entries.splice set_revents
called = refl
