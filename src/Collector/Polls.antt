-- ===== src/Collector/Polls.antt =====
-- Sequences of polls of crates/heimwatch-collector: what a collector reports adds up to the growth of
-- what it remembers, for a collector whose records hold the difference of one counter.
use heimwatch.Prelude.{
  ℕ, ◌+◌, ◌-◌, ◌≤◌, ◌≡◌, refl, ap, ◌∙◌, true, false, ◌⊎◌, List, [], ◌∷◌, ◌++◌, Option, none, some,
  arith, Bytes, eq_bytes, eq_bytes_iff, if◌then◌else◌, inl, inr,
}
use heimwatch.Error.{Result, ok, err}
use heimwatch.Aggregation.Counters.{total, total-append}
use heimwatch.Apps.{find}
use heimwatch.Collector.{
  PollError, Entry, Snapshot, comm_to_string, name_or_unknown, poll_entries, collect,
}

-- What a poll sends to the daemon.
abbrev pub emitted : {R : Type 0} → Result PollError (List R) → List R
emitted (err e) = []
emitted (ok records) = records

module _ {S : Type 0} where
  -- No entry has the name, and each can be read.
  abbrev pub Absent : Bytes → List (Entry S) → Type 0
  Absent k [] = Unit
  Absent k (none ∷ l) = ⊥
  Absent k (some (comm, stats) ∷ l) =
      (eq_bytes (name_or_unknown (comm_to_string comm)) k ≡ false) × Absent k l

  -- One entry has the name, with these counters, and each can be read.
  abbrev pub Once : Bytes → S → List (Entry S) → Type 0
  Once k s [] = ⊥
  Once k s (none ∷ l) = ⊥
  Once k s (some (comm, stats) ∷ l) =
      ((eq_bytes (name_or_unknown (comm_to_string comm)) k ≡ true) × (stats ≡ s) × Absent k l)
      ⊎ ((eq_bytes (name_or_unknown (comm_to_string comm)) k ≡ false) × Once k s l)

module _ {S V R : Type 0} (value : S → V) (part : Option V → ℕ)
    (clock_map : Option ℕ
      → Option (List (Entry S))
      → Snapshot V
      → Result PollError (List R) × Snapshot V) where
  -- Polls of a map in which the application `k` has one entry, whose counter never goes back: the
  -- snapshot before, the records that are sent, and the snapshot after.
  pub data Polls (k : Bytes) (before : Snapshot V) : List R → Snapshot V → Type 0 where
    start : Polls k before [] before
    poll :
        (rs : List R) (t : Snapshot V) (timestamp : ℕ) (l : List (Entry S)) (s : S)
        → Polls k before rs t
        → Once k s l
        → part (find k t) ≤ part (some (value s))
        → Polls k before
            (rs ++ emitted (clock_map (some timestamp) (some l) t).0)
            (clock_map (some timestamp) (some l) t).1

module _ {S V R : Type 0} (value : S → V) (delta : ℕ → Bytes → Option V → S → List R)
    (measure : Bytes → R → ℕ) (part : Option V → ℕ)
    (adds : (ts : ℕ) (name : Bytes) (prev : Option V) (s : S) (k : Bytes)
      → total (measure k) (delta ts name prev s)
        ≡ (if eq_bytes name k then part (some (value s)) - part prev else 0)) where
  entries-Absent :
      (ts : ℕ) (prev : Snapshot V) (k : Bytes) (l : List (Entry S)) (rs : List R) (new : Snapshot V)
      → Absent k l
      → (out : List R) × (st : Snapshot V) × (poll_entries value (delta ts) prev l rs new
          ≡ ok (out, st))
        × (total (measure k) out ≡ total (measure k) rs)
        × (find k st ≡ find k new)
  unfolding poll_entries
  entries-Absent ts prev k [] rs new a = (rs, new, refl, refl, refl)
  entries-Absent ts prev k (none ∷ l) rs new a = absurd a
  entries-Absent ts prev k (some (comm, stats) ∷ l) rs new (other, a) =
      let name = name_or_unknown (comm_to_string comm) in
      let more = delta ts name (find name prev) stats in
      let nothing = rw other at (adds ts name (find name prev) stats k) in
      let (out, st, done, t, f) =
        entries-Absent ts prev k l (rs ++ more) ((name, value stats) ∷ new) a in
      (
        out,
        st,
        done,
        t ∙ omega (arith, total-append (measure k) rs more, nothing),
        f ∙ rw other refl,
      )

  entries-Once :
      (ts : ℕ) (prev : Snapshot V) (k : Bytes) (s : S) (l : List (Entry S)) (rs : List R)
      (new : Snapshot V)
      → Once k s l
      → (out : List R) × (st : Snapshot V) × (poll_entries value (delta ts) prev l rs new
          ≡ ok (out, st))
        × (total (measure k) out
            ≡ total (measure k) rs + (part (some (value s)) - part (find k prev)))
        × (find k st ≡ some (value s))
  unfolding poll_entries
  entries-Once ts prev k s [] rs new a = absurd a
  entries-Once ts prev k s (none ∷ l) rs new a = absurd a
  entries-Once ts prev k s (some (comm, stats) ∷ l) rs new (inr (other, a)) =
      let name = name_or_unknown (comm_to_string comm) in
      let more = delta ts name (find name prev) stats in
      let nothing = rw other at (adds ts name (find name prev) stats k) in
      let (out, st, done, t, f) =
        entries-Once ts prev k s l (rs ++ more) ((name, value stats) ∷ new) a in
      (out, st, done, t ∙ omega (arith, total-append (measure k) rs more, nothing), f)
  entries-Once ts prev k s (some (comm, stats) ∷ l) rs new (inl (own, e, a)) =
      let name = name_or_unknown (comm_to_string comm) in
      let more = delta ts name (find name prev) stats in
      let grown = rw own at (adds ts name (find name prev) stats k) in
      let (out, st, done, t, f) =
        entries-Absent ts prev k l (rs ++ more) ((name, value stats) ∷ new) a in
      (
        out,
        st,
        done,
        t
            ∙ total-append (measure k) rs more
            ∙ ap (λ n. total (measure k) rs + n)
                (grown
                  ∙ ap (λ o. part (some (value stats)) - part (find o prev))
                      ((eq_bytes_iff name k).0 own)
                  ∙ ap (λ x. part (some (value x)) - part (find k prev)) e),
        f ∙ rw own (ap (λ x. some (value x)) e),
      )

  pub poll-Once :
      (ts : ℕ) (k : Bytes) (s : S) (l : List (Entry S)) (t : Snapshot V)
      → Once k s l
      → (total (measure k) (emitted (collect value delta (some ts) (some l) t).0)
          ≡ part (some (value s)) - part (find k t))
        × (find k (collect value delta (some ts) (some l) t).1 ≡ some (value s))
  unfolding collect
  poll-Once ts k s l t once =
      let (out, st, done, sum, f) = entries-Once ts t k s l [] [] once in
      rw done (sum ∙ omega arith, f)

  pub Polls-growth :
      (k : Bytes) (before after : Snapshot V) (rs : List R)
      → Polls value part (collect value delta) k before rs after
      → total (measure k) rs + part (find k before) ≡ part (find k after)
  Polls-growth k before after rs Polls.start = omega arith
  Polls-growth k before after rs (Polls.poll earlier_rs t timestamp l s earlier once up) =
      let so_far = Polls-growth k before t earlier_rs earlier in
      let (sum, found) = poll-Once timestamp k s l t once in
      let out = emitted (collect value delta (some timestamp) (some l) t).0 in
      rw found (omega (arith, total-append (measure k) earlier_rs out, sum, so_far, up))
