-- ===== src/Net/ReadStream/Failures.antt =====
-- What `ReadStream::fill` throws.
use tun.Prelude.{
  ℕ, List, [], ◌∷◌, length, Bool, true, false, ltb, leb, Bool-cases, inl, inr, if◌then◌else◌,
  sub_size, ◌+◌,
}
use tun.Net.Result.{
  Result, ok, throw, undefined, Error, errno, end_of_file, bad_read_length, stdin_closed, bad_poll,
  read_pipe_closed, eagain, ehostunreach, econnreset, eintr, eaddrinuse, other_errno, ◌>>=◌,
}
use tun.Net.Kernel.{Kernel, Events, ReadResult, got, read_failed}
use tun.Net.ReadStream.{
  ReadStream, load_length, grow, read_into, got_header, got_body, fill_header, fill_rest, fill_body,
  fill_after, fill,
}

-- The poll or the read failed, the stream ended, or the length of a packet is too large.
abbrev pub IsInput : Error → Type 0
IsInput (errno e) = Unit
IsInput end_of_file = Unit
IsInput bad_read_length = Unit
IsInput stdin_closed = Unit
IsInput bad_poll = Unit
IsInput read_pipe_closed = Unit
IsInput _ = ⊥

abbrev pub FailsByInput : {A : Type 0} → Result A → Type 0
FailsByInput (ok a) = Unit
FailsByInput (throw e) = IsInput e
FailsByInput undefined = Unit

pub FailsByInput-bind :
    {A B : Type 0} (m : Result A) (f : A → Result B)
    → FailsByInput m
    → ((a : A) → FailsByInput (f a))
    → FailsByInput (m >>= f)
FailsByInput-bind (ok a) f h g = g a
FailsByInput-bind (throw e) f h g = h
FailsByInput-bind undefined f h g = tt

FailsByInput-if :
    {A : Type 0} (b : Bool) (x y : Result A)
    → FailsByInput x
    → FailsByInput y
    → FailsByInput (if b then x else y)
FailsByInput-if true x y h g = h
FailsByInput-if false x y h g = g

module _ (k : Kernel) (fd : ℕ) where
  open k use {Os, read}

  got_header_fails : (r : ReadStream) (x : ReadResult × Os) → FailsByInput (got_header k r x)
  unfolding got_header
  got_header_fails r (read_failed e, o) = tt
  got_header_fails r (got [], o) = tt
  got_header_fails r (got (b ∷ bs), o) = tt

  got_body_fails : (n : ℕ) (r : ReadStream) (x : ReadResult × Os) → FailsByInput (got_body k n r x)
  unfolding got_body
  got_body_fails n r (got bs, o) = tt
  got_body_fails n r (read_failed eagain, o) = tt
  got_body_fails n r (read_failed ehostunreach, o) = tt
  got_body_fails n r (read_failed econnreset, o) = tt
  got_body_fails n r (read_failed eintr, o) = tt
  got_body_fails n r (read_failed eaddrinuse, o) = tt
  got_body_fails n r (read_failed (other_errno e), o) = tt

  load_length_fails : (xs : List ℕ) → FailsByInput (load_length xs)
  unfolding load_length
  load_length_fails [] = tt
  load_length_fails (a ∷ []) = tt
  load_length_fails (a ∷ b ∷ []) = tt
  load_length_fails (a ∷ b ∷ c ∷ []) = tt
  load_length_fails (a ∷ b ∷ c ∷ d ∷ t) = tt

  read_into_fails :
      (n : ℕ) (r : ReadStream) (next : ReadResult × Os → Result (ReadStream × Os)) (o : Os)
      → ((x : ReadResult × Os) → FailsByInput (next x))
      → FailsByInput (read_into k fd n r next o)
  unfolding read_into
  read_into_fails n r next o h =
      FailsByInput-if (leb (length r.read_buf + n) r.read_size) (next (read fd n o)) undefined
        (h (read fd n o)) tt

  fill_rest_fails : (r : ReadStream) (o : Os) (n : ℕ) → FailsByInput (fill_rest k fd r o n)
  unfolding fill_rest
  fill_rest_fails r o n =
      let body =
        read_into_fails (sub_size (n + 4) (length r.read_buf)) (grow n r) (got_body k n (grow n r))
          o (got_body_fails n (grow n r)) in
      elim (Bool-cases (ltb 50000000 n)) [ inl e ↦ rw e tt | inr e ↦ rw e body ]

  fill_after_fails : (x : ReadStream × Os) → FailsByInput (fill_after k fd x)
  unfolding fill_after fill_body
  fill_after_fails (r, o) =
      FailsByInput-if (ltb (length r.read_buf) 4) (ok (r, o))
        (load_length r.read_buf >>= fill_rest k fd r o) tt
        (FailsByInput-bind (load_length r.read_buf) (fill_rest k fd r o)
          (load_length_fails r.read_buf) (fill_rest_fails r o))

  fill_header_fails : (r : ReadStream) (o : Os) → FailsByInput (fill_header k fd r o)
  unfolding fill_header
  fill_header_fails r o =
      FailsByInput-if (ltb (length r.read_buf) 4)
        (read_into k fd (sub_size 4 (length r.read_buf)) r (got_header k r) o) (ok (r, o))
        (read_into_fails (sub_size 4 (length r.read_buf)) r (got_header k r) o (got_header_fails r))
        tt

  pub fill_fails :
      (revents : Events) (r : ReadStream) (o : Os) → FailsByInput (fill k fd revents r o)
  unfolding fill
  fill_fails revents r o =
      FailsByInput-if revents.pollin (fill_header k fd r o >>= fill_after k fd) (ok (r, o))
        (FailsByInput-bind (fill_header k fd r o) (fill_after k fd) (fill_header_fails r o)
          fill_after_fails)
        tt
