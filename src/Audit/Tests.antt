-- ===== src/Audit/Tests.antt =====
-- A trail of two batches.
use kira_backend.Prelude.{
  ℕ, ◌+◌, ◌≡◌, refl, true, false, none, some, List, [], ◌∷◌, nat_eq, string_eq, option_eq, ok,
}
use kira_backend.Audit.{
  agent, TrailRow, Entry, ChainVerification, verify_rows, verify_chain, row_of,
}
use kira_backend.Audit.Chain.{chain_valid-iff-Follows, tampering_is_detected}
use kira_backend.Audit.Written.{IsWritten, record_all, events_of, record_all-verifies}

abbrev entry : ℕ → Entry
entry n = record {
  node_type = agent;
  node_name = "compliance";
  input_hash = n;
  output_hash = n + 10;
  duration_ms = 5;
}

-- The rows of batch 1 as the program writes them
abbrev row_1 : TrailRow
row_1 = row_of 1 (entry 1) 1 none

abbrev row_2 : TrailRow
row_2 = row_of 1 (entry 2) 2 (some 11)

abbrev row_3 : TrailRow
row_3 = row_of 1 (entry 3) 3 (some 12)

chain_valid-iff-Follows_example : (verify_rows 1 (row_1 ∷ row_2 ∷ row_3 ∷ [])).chain_valid ≡ true
chain_valid-iff-Follows_example =
    (chain_valid-iff-Follows 1 (row_1 ∷ row_2 ∷ row_3 ∷ [])).1 (refl, (refl, (refl, tt)))

valid : (verify_rows 1 (row_1 ∷ row_2 ∷ row_3 ∷ [])).chain_valid ≡ true
unfolding verify_rows
valid = refl

tampering_is_detected_example :
    (verify_rows 1 (row_1 ∷ record row_2 { output_hash = some 99 } ∷ row_3 ∷ [])).chain_valid
    ≡ false
tampering_is_detected_example =
    tampering_is_detected 1 (row_1 ∷ []) row_2 (record row_2 { output_hash = some 99 }) row_3 []
      valid (λ q. cc q)

abbrev events : List (ℕ × Entry)
events = (1, entry 1) ∷ (2, entry 9) ∷ (1, entry 2) ∷ []

record_all-verifies_example :
    (v : ChainVerification) × (verify_chain (1 ∷ 2 ∷ []) (record_all events []) 1 ≡ ok v)
    × (v.chain_valid ≡ true)
    × (v.warnings ≡ [])
    × (v.total_steps ≡ events_of 1 events)
record_all-verifies_example = record_all-verifies (1 ∷ 2 ∷ []) 1 events refl

empty-IsWritten : IsWritten []
empty-IsWritten b = tt
