-- ===== src/MasterForm/OnBehalf.antt =====
-- The form of a mine, written by a supplier above it.
use kira_backend.Prelude.{nat_eq, string_eq, option_eq}
