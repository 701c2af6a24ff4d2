-- ===== src/Audit.antt =====
-- The audit trail: `_write_audit` and `trace_node` of backend/infrastructure/trace.py, which append
-- a row to `audit_trail`, and `verify_chain` of backend/domains/audit/service.py over the rows that
-- `list_full_chain` of backend/domains/audit/repository.py returns. A digest (64 hex digits) is the
-- number that it writes; `_stable_hash` (json and hashlib) is an argument.
pub mod Chain
pub mod Written
mod Tests
use kira_backend.Prelude.{
  ℕ, zero, suc, ◌+◌, ◌-◌, ◌*◌, ◌/◌, ◌%◌, ◌≤◌, ◌<◌, min, max, String, ◌≡◌, refl, sym, ap, ◌∙◌, subst,
  ◌≢◌, ◌↔◌, ◌⊎◌, inl, inr, Bool, true, false, not, ◌&&◌, ◌||◌, Option, none, some, List, [], ◌∷◌,
  ◌++◌, map, arith, Eq, ◌==◌, nat_eq, string_eq, option_eq, option_beq_iff, contains, Error,
  value_error, type_error, integrity_error, batch_not_found, http, Result, ok, err, ◌>>=◌, ◌>>◌,
  raise_if, >>=-eq-ok, ltb, leb, nat_beq, nat_beq_iff, if◌then◌else◌, Bool-cases, Option-cases,
  is_some, length, All, any, all, filter, count_if, find?, update_where, length-append,
  count_if-append, All-append, All-map, any-append, find?-holds, length-update_where,
}

pub data NodeType : Type 0 where
  agent tool human : NodeType

-- A row of `audit_trail`; `step_number`, `output_hash` and `prev_hash` are nullable columns.
pub record TrailRow : Type 0 where
  pub batch_id : ℕ
  pub step_number : Option ℕ
  pub node_type : NodeType
  pub node_name : String
  pub duration_ms : ℕ
  pub input_hash : ℕ
  pub output_hash : Option ℕ
  pub prev_hash : Option ℕ

-- The arguments of `_write_audit` besides the session and the batch.
pub record Entry : Type 0 where
  pub node_type : NodeType
  pub node_name : String
  pub input_hash : ℕ
  pub output_hash : ℕ
  pub duration_ms : ℕ

abbrev pub Trail : Type 0
Trail = List TrailRow

abbrev pub of_batch : ℕ → TrailRow → Bool
of_batch b r = r.batch_id == b

-- `ORDER BY step_number DESC` puts nulls first.
abbrev pub step_above : Option ℕ → Option ℕ → Bool
step_above (some a) (some b) = ltb b a
step_above none (some b) = true
step_above _ none = false

abbrev pub is_above : TrailRow → Option TrailRow → Bool
is_above r none = true
is_above r (some best) = step_above r.step_number best.step_number

-- `ORDER BY step_number DESC LIMIT 1`
pub latest : Option TrailRow → List TrailRow → Option TrailRow
latest best [] = best
latest best (r ∷ rs) = latest (if is_above r best then some r else best) rs

-- `prev[1] + 1`
abbrev pub next_step : Option ℕ → Result ℕ
next_step none = err type_error
next_step (some n) = ok (n + 1)

abbrev pub row_of : ℕ → Entry → ℕ → Option ℕ → TrailRow
row_of b e step prev = record {
  batch_id = b;
  step_number = some step;
  node_type = e.node_type;
  node_name = e.node_name;
  duration_ms = e.duration_ms;
  input_hash = e.input_hash;
  output_hash = some e.output_hash;
  prev_hash = prev;
}

abbrev pub link : ℕ → Entry → Option TrailRow → Result TrailRow
link b e none = ok (row_of b e 1 none)
link b e (some prev) = do step ← next_step prev.step_number; ok (row_of b e step prev.output_hash)

unfoldable pub write_audit : Option ℕ → Entry → Trail → Result Trail
unfolding latest
write_audit none e t = ok t
write_audit (some b) e t = do
  row ← link b e (latest none (filter (of_batch b) t))
  ok (t ++ row ∷ [])

-- A failure to record is printed and swallowed.
abbrev pub or_unchanged : Trail → Result Trail → Trail
or_unchanged t (ok t') = t'
or_unchanged t (err e) = t

-- The wrapper of `trace_node`, around the outcome of the wrapped call: `hash` is `_stable_hash`,
-- `session` whether one is among the arguments.
unfoldable pub trace_node {ℓ} :
    {A : Type ℓ}
    → (A → ℕ)
    → Bool
    → Option ℕ
    → NodeType
    → String
    → ℕ
    → ℕ
    → Result A
    → Trail
    → Result A × Trail
unfolding write_audit
trace_node hash session batch_id ntype name input duration (err e) t = (err e, t)
trace_node hash session batch_id ntype name input duration (ok a) t =
    let entry : Entry = record {
      node_type = ntype;
      node_name = name;
      input_hash = input;
      output_hash = hash a;
      duration_ms = duration;
    } in
    (ok a, if session then or_unchanged t (write_audit batch_id entry t) else t)

-- `ORDER BY step_number ASC`, nulls last, as a stable insertion sort.
abbrev pub step_after : Option ℕ → Option ℕ → Bool
step_after (some a) (some b) = ltb b a
step_after none (some b) = true
step_after _ none = false

pub insert_row : TrailRow → List TrailRow → List TrailRow
insert_row r [] = r ∷ []
insert_row r (s ∷ rs) =
    if step_after r.step_number s.step_number then s ∷ insert_row r rs else r ∷ s ∷ rs

pub order_by_step : List TrailRow → List TrailRow
unfolding insert_row
order_by_step [] = []
order_by_step (r ∷ rs) = insert_row r (order_by_step rs)

unfoldable pub list_full_chain : ℕ → Trail → List TrailRow
unfolding order_by_step
list_full_chain b t = order_by_step (filter (of_batch b) t)

pub data BreakReason : Type 0 where
  first_step_prev_hash_not_null prev_hash_mismatch : BreakReason

pub record ChainBreak : Type 0 where
  pub step_number : Option ℕ
  pub expected_prev_hash : Option ℕ
  pub actual_prev_hash : Option ℕ
  pub reason : BreakReason

pub data WarningReason : Type 0 where
  duplicate_step_number step_number_gap : WarningReason

pub record ChainWarning : Type 0 where
  pub step_number : ℕ
  pub reason : WarningReason

pub record ChainVerification : Type 0 where
  pub batch_id : ℕ
  pub total_steps : ℕ
  pub chain_valid : Bool
  pub breaks : List ChainBreak
  pub warnings : List ChainWarning

-- The variables of the loop of `verify_chain`.
pub record Scan : Type 0 where
  pub prev_output : Option ℕ
  pub expected_step : Option ℕ
  pub seen_steps : List ℕ
  pub breaks : List ChainBreak
  pub warnings : List ChainWarning

abbrev pub scan_start : Scan
scan_start = record {
  prev_output = none;
  expected_step = none;
  seen_steps = [];
  breaks = [];
  warnings = [];
}

abbrev pub breaks_at : ℕ → TrailRow → Option ℕ → List ChainBreak
breaks_at idx r prev_output =
    if idx == 0
    then (if is_some r.prev_hash
        then record {
          step_number = r.step_number;
          expected_prev_hash = none;
          actual_prev_hash = r.prev_hash;
          reason = first_step_prev_hash_not_null;
        }
          ∷ []
        else [])
    else (if r.prev_hash == prev_output
        then []
        else record {
          step_number = r.step_number;
          expected_prev_hash = prev_output;
          actual_prev_hash = r.prev_hash;
          reason = prev_hash_mismatch;
        }
          ∷ [])

abbrev pub is_gap : Option ℕ → ℕ → Bool
is_gap none step = false
is_gap (some expected) step = not (step == expected)

abbrev pub scan_step_number : Option ℕ → Scan → Scan
scan_step_number none s = s
scan_step_number (some n) s = record s {
  expected_step = some (n + 1);
  seen_steps = n ∷ s.seen_steps;
  warnings =
      s.warnings
      ++ (if contains s.seen_steps n
          then record { step_number = n; reason = duplicate_step_number } ∷ []
          else [])
      ++ (if is_gap s.expected_step n
          then record { step_number = n; reason = step_number_gap } ∷ []
          else []);
}

abbrev pub scan_row : ℕ → TrailRow → Scan → Scan
scan_row idx r s =
    scan_step_number r.step_number
      (record s { prev_output = r.output_hash; breaks = s.breaks ++ breaks_at idx r s.prev_output })

pub scan : ℕ → List TrailRow → Scan → Scan
scan idx [] s = s
scan idx (r ∷ rs) s = scan (suc idx) rs (scan_row idx r s)

abbrev pub is_empty {ℓ} : {A : Type ℓ} → List A → Bool
is_empty [] = true
is_empty (_ ∷ _) = false

unfoldable pub verify_rows : ℕ → List TrailRow → ChainVerification
unfolding scan
verify_rows b rows =
    let s = scan 0 rows scan_start in
    record {
      batch_id = b;
      total_steps = length rows;
      chain_valid = is_empty s.breaks;
      breaks = s.breaks;
      warnings = s.warnings;
    }

-- `batches` is the list of the keys of that table, for `batch_exists`.
unfoldable pub verify_chain : List ℕ → Trail → ℕ → Result ChainVerification
unfolding list_full_chain verify_rows
verify_chain batches t b =
    if contains batches b then ok (verify_rows b (list_full_chain b t)) else err batch_not_found
