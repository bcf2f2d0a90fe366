-- ===== src/Text/Levels.antt =====
-- Log levels by name and by rank.
use netatalk_client.Base.{str_case_eq, ℕ, ◌-◌, ◌≤◌, ◌≡◌, ◌⊎◌, inl, inr, refl, arith, some}
use netatalk_client.Text.{
  log_level_to_string, string_to_log_level, loglevel_to_rank, log_debug, log_err,
}

named_levels :
    (level : ℕ)
    → log_err ≤ level
    → level ≤ log_debug
    → (level ≡ 3) ⊎ ((level ≡ 4) ⊎ ((level ≡ 5) ⊎ ((level ≡ 6) ⊎ (level ≡ 7))))
named_levels level low high = omega arith

-- A level that has a name is one of LOG_ERR to LOG_DEBUG: it is read back from its name, and its rank
-- grows as the number of the level falls.
pub string_to_log_level-log_level_to_string :
    (level : ℕ)
    → log_err ≤ level
    → level ≤ log_debug
    → (string_to_log_level (log_level_to_string level) ≡ some level)
      × (loglevel_to_rank level ≡ log_debug - level)
unfolding string_to_log_level log_level_to_string loglevel_to_rank str_case_eq
string_to_log_level-log_level_to_string level low high = elim (named_levels level low high) [
  | inl e ↦ rw e (refl, refl)
  | inr (inl e) ↦ rw e (refl, refl)
  | inr (inr (inl e)) ↦ rw e (refl, refl)
  | inr (inr (inr (inl e))) ↦ rw e (refl, refl)
  | inr (inr (inr (inr e))) ↦ rw e (refl, refl)
]
