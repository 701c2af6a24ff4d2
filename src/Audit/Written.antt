-- ===== src/Audit/Written.antt =====
-- The rows that `_write_audit` of backend/infrastructure/trace.py appends, under `verify_chain`.
use kira_backend.Prelude.{
  ℕ, suc, ◌+◌, ◌<◌, ◌≡◌, refl, ◌∙◌, subst, inl, inr, true, false, Option, none, some, List, [], ◌∷◌,
  ◌++◌, arith, ◌==◌, nat_eq, string_eq, option_eq, contains, ok, nat_beq, nat_beq_iff,
  if◌then◌else◌, Bool-cases, length, All, filter, length-append, filter-append, All-map,
}
use kira_backend.Audit.{
  TrailRow, Trail, Entry, of_batch, latest, is_above, row_of, link, write_audit, or_unchanged,
  is_gap, insert_row, order_by_step, ChainVerification, Scan, scan, scan_start, verify_rows,
  verify_chain,
}
use mathlib.Core.List.{append-nil}
use kira_backend.Audit.Chain.{Follows, chain_valid-iff-Follows}

-- The rows are numbered from `k` on without a gap, and follow `prev`.
abbrev pub IsLinked : Option ℕ → ℕ → List TrailRow → Type 0
IsLinked prev k [] = Unit
IsLinked prev k (r ∷ rs) =
    (r.step_number ≡ some k) × (r.prev_hash ≡ prev) × IsLinked r.output_hash (k + 1) rs

abbrev IsBelow : ℕ → Option TrailRow → Type 0
IsBelow k none = Unit
IsBelow k (some r) = (j : ℕ) × (r.step_number ≡ some j) × (j < k)

abbrev last_of : Option TrailRow → List TrailRow → Option TrailRow
last_of best [] = best
last_of best (r ∷ rs) = last_of (some r) rs

above-next :
    (k : ℕ) (r : TrailRow) (best : Option TrailRow)
    → r.step_number ≡ some k
    → IsBelow k best
    → is_above r best ≡ true
above-next k r none e h = refl
above-next k r (some b) e h = rw (e, h.1) (ground (arith, h.2))

latest-eq-last_of :
    (prev : Option ℕ) (k : ℕ) (best : Option TrailRow) (rs : List TrailRow)
    → IsBelow k best
    → IsLinked prev k rs
    → latest best rs ≡ last_of best rs
unfolding latest
latest-eq-last_of prev k best [] h l = refl
latest-eq-last_of prev k best (r ∷ rs) h l =
    rw (above-next k r best l.0 h)
      (latest-eq-last_of r.output_hash (k + 1) (some r) rs (k, l.0, omega arith) l.2)

-- The row that `write_audit` adds goes on with the numbering and the digests.
link-IsLinked :
    (b : ℕ) (e : Entry) (k : ℕ) (r : TrailRow) (rs : List TrailRow)
    → r.step_number ≡ some k
    → IsLinked r.output_hash (k + 1) rs
    → (row : TrailRow) × (link b e (last_of (some r) rs) ≡ ok row)
      × (row.batch_id ≡ b)
      × IsLinked r.output_hash (k + 1) (rs ++ row ∷ [])
link-IsLinked b e k r [] s l = (row_of b e (k + 1) r.output_hash, rw s refl, refl, (refl, refl, tt))
link-IsLinked b e k r (q ∷ rs) s l =
    let (row, made, own, linked) = link-IsLinked b e (k + 1) q rs l.0 l.2 in
    (row, made, own, (l.0, l.1, linked))

link-latest :
    (b : ℕ) (e : Entry) (rs : List TrailRow)
    → IsLinked none 1 rs
    → (row : TrailRow) × (link b e (latest none rs) ≡ ok row)
      × (row.batch_id ≡ b)
      × IsLinked none 1 (rs ++ row ∷ [])
unfolding latest
link-latest b e [] l = (row_of b e 1 none, refl, refl, (refl, refl, tt))
link-latest b e (r ∷ rs) l =
    let (row, made, own, linked) = link-IsLinked b e 1 r rs l.0 l.2 in
    (
      row,
      rw (latest-eq-last_of r.output_hash 2 (some r) rs (1, l.0, omega arith) l.2) made,
      own,
      (l.0, l.1, linked),
    )

-- Every batch of the table has a linked trail.
abbrev pub IsWritten : Trail → Type 0
IsWritten t = (b : ℕ) → IsLinked none 1 (filter (of_batch b) t)

filter-own :
    (b c : ℕ) (row : TrailRow)
    → row.batch_id ≡ b
    → filter (of_batch c) (row ∷ []) ≡ (if b == c then row ∷ [] else [])
filter-own b c row e = rw e refl

-- Where the trail of every batch is numbered from 1 without a gap and linked by its digests,
-- `write_audit` appends one row, of its batch, and leaves every trail so.
pub write_audit-IsWritten :
    (b : ℕ) (e : Entry) (t : Trail)
    → IsWritten t
    → (row : TrailRow) × (write_audit (some b) e t ≡ ok (t ++ row ∷ []))
      × (row.batch_id ≡ b)
      × IsWritten (t ++ row ∷ [])
unfolding write_audit
write_audit-IsWritten b e t w =
    let (row, made, own, linked) = link-latest b e (filter (of_batch b) t) (w b) in
    (
      row,
      rw made refl,
      own,
      λ c.
          rw (filter-append (of_batch c) t (row ∷ []), filter-own b c row own)
            (elim (Bool-cases (nat_beq b c)) [
              | inl same ↦ rw same (
                  subst (λ d. IsLinked none 1 (filter (of_batch d) t ++ row ∷ []))
                    ((nat_beq_iff b c).0 same) linked)
              | inr other ↦ rw other (rw append-nil (w c))
            ]),
    )

insert_row-first :
    (k : ℕ) (p : Option ℕ) (r : TrailRow) (rs : List TrailRow)
    → r.step_number ≡ some k
    → IsLinked p (k + 1) rs
    → insert_row r rs ≡ r ∷ rs
unfolding insert_row
insert_row-first k p r [] e l = refl
insert_row-first k p r (s ∷ rs) e l = rw (e, l.0) (ground arith)

order-IsLinked :
    (p : Option ℕ) (k : ℕ) (rs : List TrailRow) → IsLinked p k rs → order_by_step rs ≡ rs
unfolding order_by_step
order-IsLinked p k [] l = refl
order-IsLinked p k (r ∷ rs) l =
    rw (order-IsLinked r.output_hash (k + 1) rs l.2) (insert_row-first k r.output_hash r rs l.0 l.2)

IsLinked-Follows : (p : Option ℕ) (k : ℕ) (rs : List TrailRow) → IsLinked p k rs → Follows p rs
IsLinked-Follows p k [] l = tt
IsLinked-Follows p k (r ∷ rs) l = (l.1, IsLinked-Follows r.output_hash (k + 1) rs l.2)

contains-below : (k : ℕ) (seen : List ℕ) → All (λ n. n < k) seen → contains seen k ≡ false
contains-below k [] h = refl
contains-below k (n ∷ seen) h = ground (arith, contains-below k seen h.1)

abbrev Expects : ℕ → Option ℕ → Type 0
Expects k none = Unit
Expects k (some n) = n ≡ k

not-gap : (k : ℕ) (o : Option ℕ) → Expects k o → is_gap o k ≡ false
not-gap k none h = refl
not-gap k (some n) h = ground arith

scan-warnings :
    (p : Option ℕ) (k idx : ℕ) (rs : List TrailRow) (s : Scan)
    → IsLinked p k rs
    → Expects k s.expected_step
    → All (λ n. n < k) s.seen_steps
    → s.warnings ≡ []
    → (scan idx rs s).warnings ≡ []
unfolding scan
scan-warnings p k idx [] s l x a w = w
scan-warnings p k idx (r ∷ rs) s l x a w = rw l.0 (
    scan-warnings r.output_hash (k + 1) (suc idx) rs _ l.2 refl
      (omega arith, All-map _ _ (λ n h. omega arith) s.seen_steps a)
      (rw (contains-below k s.seen_steps a, not-gap k s.expected_step x, w) refl))

-- What `trace_node` records, one call after another, of any batches and in any interleaving.
unfoldable pub record_all : List (ℕ × Entry) → Trail → Trail
record_all [] t = t
record_all ((b, e) ∷ es) t = record_all es (or_unchanged t (write_audit (some b) e t))

abbrev pub events_of : ℕ → List (ℕ × Entry) → ℕ
events_of b [] = 0
events_of b ((c, e) ∷ es) = (if c == b then 1 else 0) + events_of b es

record_all-IsWritten :
    (b : ℕ) (es : List (ℕ × Entry)) (t : Trail)
    → IsWritten t
    → IsWritten (record_all es t)
      × (length (filter (of_batch b) (record_all es t))
          ≡ length (filter (of_batch b) t) + events_of b es)
unfolding record_all
record_all-IsWritten b [] t w = (w, omega arith)
record_all-IsWritten b ((c, e) ∷ es) t w =
    let (row, made, own, w') = write_audit-IsWritten c e t w in
    let ih = record_all-IsWritten b es (t ++ row ∷ []) w' in
    rw made (
      ih.0,
      ih.1
          ∙ rw (filter-append (of_batch b) t (row ∷ []), filter-own c b row own)
              (elim (Bool-cases (nat_beq c b)) [
                | inl same ↦
                    rw same (omega (arith, length-append (filter (of_batch b) t) (row ∷ [])))
                | inr other ↦ rw (other, append-nil) (omega arith)
              ]),
    )

-- Whatever the program records, interleaved over any batches, the trail of each existing batch
-- verifies: the chain is valid, no warning is raised, and the steps are as many as were recorded.
pub record_all-verifies :
    (batches : List ℕ) (b : ℕ) (es : List (ℕ × Entry))
    → contains batches b ≡ true
    → (v : ChainVerification) × (verify_chain batches (record_all es []) b ≡ ok v)
      × (v.chain_valid ≡ true)
      × (v.warnings ≡ [])
      × (v.total_steps ≡ events_of b es)
unfolding verify_chain
record_all-verifies batches b es known =
    let (w, n) = record_all-IsWritten b es [] (λ c. tt) in
    let rows = filter (of_batch b) (record_all es []) in
    (
      verify_rows b rows,
      rw (known, order-IsLinked none 1 rows (w b)) refl,
      (chain_valid-iff-Follows b rows).1 (IsLinked-Follows none 1 rows (w b)),
      unfold verify_rows in scan-warnings none 1 0 rows scan_start (w b) tt tt refl,
      n ∙ omega arith,
    )
