-- ===== src/Tunnel/Local/Launch/Wired.antt =====
-- How forkpipe connects the two processes.
use tun.Prelude.{
  ◌↔◌, ℕ, ◌≡◌, ◌≢◌, refl, sym, ap, subst, ◌∙◌, Option, none, some, ◌==◌, if◌then◌else◌, arith,
}
use tun.Tunnel.Local.Launch.{parent, child, in_parent, in_child, forked, forkpipe}
use tun.Tunnel.Local.Launch.Pipes.{File, reader, writer, IsPipe, Descriptors}

module _ (d : Descriptors) where
  open d use {Table, at, pipe, close, dup2, pipe_opens, close_at, dup2_at}

  -- The parent reads pipe `p` at `r` and writes pipe `q` at `w`, and has no other end of them.
  pub record IsParent (r w p q : ℕ) (t : Table) : Type 0 where
    pub reads : (j : ℕ) → (at t j ≡ some (reader p)) ↔ (j ≡ r)
    pub writes : (j : ℕ) → (at t j ≡ some (writer q)) ↔ (j ≡ w)
    pub no_writer : (j : ℕ) → at t j ≢ some (writer p)
    pub no_reader : (j : ℕ) → at t j ≢ some (reader q)

  -- The child writes pipe `p` as its standard output and reads `q` as its standard input.
  pub record IsChild (p q : ℕ) (t : Table) : Type 0 where
    pub writes : (j : ℕ) → (at t j ≡ some (writer p)) ↔ (j ≡ 1)
    pub reads : (j : ℕ) → (at t j ≡ some (reader q)) ↔ (j ≡ 0)
    pub no_reader : (j : ℕ) → at t j ≢ some (reader p)
    pub no_writer : (j : ℕ) → at t j ≢ some (writer q)

  -- The two pipes one after the other.
  module _ (t t1 t2 : Table) (r0 r1 w0 w1 p q : ℕ) (first : IsPipe at t t1 r0 r1 p)
      (second : IsPipe at t1 t2 w0 w1 q) where
    abbrev both : ℕ → Option File
    both j =
        if r0 == j
        then some (reader p)
        else if r1 == j
        then some (writer p)
        else if w0 == j
        then some (reader q)
        else if w1 == j
        then some (writer q)
        else at t j

    taken : (j : ℕ) → at t1 j ≢ none → (j ≢ w0) × (j ≢ w1)
    taken j h = (
      λ e. h (subst (λ i. at t1 i ≡ none) (sym e) second.free_r),
      λ e. h (subst (λ i. at t1 i ≡ none) (sym e) second.free_w),
    )

    free : (j : ℕ) → at t j ≢ none → (j ≢ r0) × (j ≢ r1) × (j ≢ w0) × (j ≢ w1)
    free j h =
        let a : j ≢ r0 = λ e. h (subst (λ i. at t i ≡ none) (sym e) first.free_r) in
        let b : j ≢ r1 = λ e. h (subst (λ i. at t i ≡ none) (sym e) first.free_w) in
        let c = taken j (rw (first.others j a b) h) in (a, b, c.0, c.1)

    distinct_pipes : p ≢ q
    distinct_pipes e = second.new_reader r0 (rw (first.reads) (ap (λ i. some (reader i)) e))

    at-both : (j : ℕ) → at t2 j ≡ both j
    at-both j =
        let n0 = taken r0 (rw (first.reads) (λ e. cc)) in
        let n1 = taken r1 (rw (first.writes) (λ e. cc)) in
        grind (
          arith,
          n0,
          n1,
          first.others j,
          second.others j,
          first.reads,
          first.writes,
          second.reads,
          second.writes,
        )

    ends_differ : (r0 ≢ w0) × (r0 ≢ w1) × (r1 ≢ w0) × (r1 ≢ w1)
    ends_differ =
        let n0 = taken r0 (rw (first.reads) (λ e. cc)) in
        let n1 = taken r1 (rw (first.writes) (λ e. cc)) in (n0.0, n0.1, n1.0, n1.1)

    parent_at :
        (j : ℕ)
        → at (close w0 (close r1 t2)) j ≡ (
            if r0 == j
            then some (reader p)
            else if w1 == j
            then some (writer q)
            else if r1 == j
            then none
            else if w0 == j
            then none
            else at t j)
    parent_at j =
        let (a, b, c, d') = ends_differ in
        rw (close_at w0 j (close r1 t2), close_at r1 j t2, at-both j)
          (grind (arith, a, b, c, d', first.distinct, second.distinct))

    fresh_q : (j : ℕ) → (at t j ≢ some (reader q)) × (at t j ≢ some (writer q))
    fresh_q j = grind (
      arith,
      first.others j,
      first.free_r,
      first.free_w,
      second.new_reader j,
      second.new_writer j,
    )

    parent_lem : IsParent r0 w1 p q (close w0 (close r1 t2))
    parent_lem = record {
      reads = λ j. (grind (arith, parent_at j, first.new_reader j), grind (arith, parent_at j));
      writes =
          λ j. (grind (arith, parent_at j, fresh_q j), grind (arith, parent_at j, ends_differ));
      no_writer = λ j. grind (arith, parent_at j, first.new_writer j, distinct_pipes);
      no_reader = λ j. grind (arith, parent_at j, fresh_q j, distinct_pipes);
    }

    module _ (in_open : at t 0 ≢ none) (out_open : at t 1 ≢ none) where
      abbrev standard : Table
      standard = dup2 r1 1 (dup2 w0 0 t2)

      standard_at :
          (j : ℕ)
          → at standard j
            ≡ (if 1 == j then some (writer p) else if 0 == j then some (reader q) else at t2 j)
      standard_at j =
          let open_w0 : at t2 w0 ≢ none = rw (second.reads) (λ e. cc) in
          let f0 = free 0 in_open in
          let f1 = free 1 out_open in
          let at_r1 : at (dup2 w0 0 t2) r1 ≡ some (writer p) =
            dup2_at w0 0 r1 t2 open_w0 ∙ grind (arith, at-both r1, f0, first.distinct) in
          rw
            (
              dup2_at r1 1 j (dup2 w0 0 t2) (rw at_r1 (λ e. cc)),
              at_r1,
              dup2_at w0 0 j t2 open_w0,
              second.reads,
            )
            (grind arith)

      child_at :
          (j : ℕ)
          → at (close r1 (close r0 (close w1 (close w0 standard)))) j ≡ (
              if 1 == j
              then some (writer p)
              else if 0 == j
              then some (reader q)
              else if r1 == j
              then none
              else if r0 == j
              then none
              else if w1 == j
              then none
              else if w0 == j
              then none
              else at t j)
      child_at j =
          let f0 = free 0 in_open in
          let f1 = free 1 out_open in
          let t1' : Table = close w0 standard in
          let t2' : Table = close w1 t1' in
          rw
            (
              close_at r1 j (close r0 t2'),
              close_at r0 j t2',
              close_at w1 j t1',
              close_at w0 j standard,
              standard_at j,
              at-both j,
            )
            (grind (arith, f0, f1))

      child_lem : IsChild p q (close r1 (close r0 (close w1 (close w0 standard))))
      child_lem = record {
        writes = λ j. (
          grind (arith, child_at j, first.new_writer j, distinct_pipes),
          grind (arith, child_at j),
        );
        reads = λ j. (grind (arith, child_at j, fresh_q j), grind (arith, child_at j));
        no_reader = λ j. grind (arith, child_at j, first.new_reader j, distinct_pipes);
        no_writer = λ j. grind (arith, child_at j, fresh_q j, distinct_pipes);
      }

  -- What forkpipe gives in the parent, and what it gives in the child.
  pub record IsWired (t : Table) : Type 0 where
    pub read_fd : ℕ
    pub write_fd : ℕ
    pub parent_table : Table
    pub child_table : Table
    pub in_the_parent : forkpipe d parent t ≡ in_parent read_fd write_fd parent_table
    pub in_the_child : forkpipe d child t ≡ in_child child_table
    pub p : ℕ
    pub q : ℕ
    pub parent_has : IsParent read_fd write_fd p q parent_table
    pub child_has : IsChild p q child_table

  -- Where descriptors 0 and 1 are open and pipe(2) succeeds twice, forkpipe returns in both
  -- processes. The parent has one end of each pipe: it reads the first at `read_fd` alone, writes
  -- the second at `write_fd` alone, and has no other end of them. The child has the other ends, as
  -- its standard output alone and its standard input alone, so that each process sees the end of
  -- the input when the other closes its end.
  pub forkpipe-IsWired :
      (t t1 t2 : Table) (r0 r1 w0 w1 : ℕ)
      → at t 0 ≢ none
      → at t 1 ≢ none
      → pipe t ≡ some (r0, r1, t1)
      → pipe t1 ≡ some (w0, w1, t2)
      → IsWired t
  unfolding forkpipe forked
  forkpipe-IsWired t t1 t2 r0 r1 w0 w1 h0 h1 e1 e2 =
      let (p, first) = pipe_opens t t1 r0 r1 e1 in
      let (q, second) = pipe_opens t1 t2 w0 w1 e2 in
      record {
        read_fd = r0;
        write_fd = w1;
        parent_table = close w0 (close r1 t2);
        child_table = close r1 (close r0 (close w1 (close w0 (dup2 r1 1 (dup2 w0 0 t2)))));
        in_the_parent = rw (e1, e2) refl;
        in_the_child = rw (e1, e2) refl;
        p = p;
        q = q;
        parent_has = parent_lem t t1 t2 r0 r1 w0 w1 p q first second;
        child_has = child_lem t t1 t2 r0 r1 w0 w1 p q first second h0 h1;
      }
