-- ===== src/Net/ReadStream/Values/Laws.antt =====
-- Values read back as WriteStream writes them.
use tun.Prelude.{
  false, ℕ, ◌/◌, ◌%◌, ◌^◌, ◌<◌, ◌≡◌, ap, List, [], ◌∷◌, ◌++◌, append_assoc, length, length-append,
  take-append, drop-append, arith, to_short, be32, of_be32, le→leb, is_negative,
}
use tun.Net.Result.{ok}
use tun.Net.WriteStream.{WriteStream, write_string}
use tun.Net.ReadStream.{ReadStream}
use tun.Net.ReadStream.Values.{
  Reader, pure, ◌>>=◌, read_short, read_long, read_count, read_string, read_bytes,
}

-- A stream that holds the given bytes.
abbrev pub holding : List ℕ → ReadStream → ReadStream
holding xs r = record r { queue = xs }

-- The reader takes exactly these bytes off the queue, whatever follows, and returns the value.
pub record Reads {A : Type 0} (m : Reader A) (xs : List ℕ) (a : A) : Type 0 where
  pub takes : (rest : List ℕ) (r : ReadStream) → m (holding (xs ++ rest) r) ≡ ok (a, holding rest r)

pub Reads-bind :
    {A B : Type 0} {m : Reader A} (f : A → Reader B) {xs ys : List ℕ} {a : A} {b : B}
    → Reads m xs a
    → Reads (f a) ys b
    → Reads (m >>= f) (xs ++ ys) b
Reads-bind f {xs} {ys} h g = record {
  takes =
      λ rest r. rw (append_assoc xs ys rest) (rw (h.takes (ys ++ rest) r, ◌>>=◌) (g.takes rest r));
}

-- The last reader of a block.
pub Reads-pure :
    {A B : Type 0} {m : Reader A} (f : A → B) {xs : List ℕ} {a : A}
    → Reads m xs a
    → Reads (m >>= λ x. pure (f x)) xs (f a)
Reads-pure f h = record { takes = λ rest r. rw (h.takes rest r, ◌>>=◌) }

-- The bytes that each writer appends.
abbrev pub short_bytes : ℕ → List ℕ
short_bytes x = (x % 65536 / 256) ∷ (x % 65536 % 256) ∷ []

abbrev pub string_bytes : List ℕ → List ℕ
string_bytes s = be32 (length s) ++ s

pub queue-write_string :
    (s : List ℕ) (w : WriteStream) → (write_string s w).queue ≡ w.queue ++ string_bytes s
unfolding write_string
queue-write_string s w = append_assoc w.queue (be32 (length s)) s

pub read_short-bytes : (x : ℕ) → Reads read_short (short_bytes x) (to_short x)
unfolding read_short
read_short-bytes x = record { takes = λ rest r. ap (λ y. ok (y, holding rest r)) (omega arith) }

pub read_count-bytes : (xs : List ℕ) → Reads (read_count (length xs)) xs xs
unfolding read_count
read_count-bytes xs = record {
  takes = λ rest r. rw (
    le→leb (length xs) (length (xs ++ rest)) (omega (arith, length-append xs rest)),
    take-append xs rest,
    drop-append xs rest,
  );
}

pub read_string-bytes : (s : List ℕ) → length s < 2 ^ 32 → Reads read_string (string_bytes s) s
unfolding read_string read_long
read_string-bytes s h =
    let e : of_be32 (length s / 16777216 % 256) (length s / 65536 % 256) (length s / 256 % 256)
          (length s % 256)
        ≡ length s =
      omega arith in
    record { takes = λ rest r. rw e ((read_count-bytes s).takes rest r) }

pub read_bytes-bytes : (xs : List ℕ) → length xs < 2 ^ 31 → Reads (read_bytes (length xs)) xs xs
unfolding read_bytes
read_bytes-bytes xs h =
    let e : is_negative (length xs) ≡ false = ground arith in
    record { takes = λ rest r. rw e ((read_count-bytes xs).takes rest r) }
