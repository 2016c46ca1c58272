-- ===== src/Result.antt =====
-- Errors as values. An error keeps what the callers and the messages tell apart.
use crawler_lite.Prelude.Base.{◌++◌}
use crawler_lite.Prelude.Text.{Str, codes}

pub data Error : Type 0 where
  -- a failed statement or round trip, with the driver's message
  db_error : Str → Error
  hub_error : Str → Error
  not_found invalid_input no_source no_git_url invalid_cron invalid_url : Error
  invalid_credentials inactive_user : Error
  -- errors.New and fmt.Errorf of a text
  failure : Str → Error
  -- fmt.Errorf("<prefix>: %w", err)
  wrapped : Str → Error → Error

pub data Result {ℓ} (A : Type ℓ) : Type ℓ where
  ok : A → Result A
  err : Error → Result A

-- `err.Error()`
pub error_text : Error → Str
error_text (db_error m) = m
error_text (hub_error m) = m
error_text not_found = codes "not found"
error_text invalid_input = codes "invalid input"
error_text no_source = codes "spider has no synced source"
error_text no_git_url = codes "spider has no git_url configured"
error_text invalid_cron = codes "invalid cron expression"
error_text invalid_url = codes "invalid notification URL"
error_text invalid_credentials = codes "invalid credentials"
error_text inactive_user = codes "user is inactive"
error_text (failure m) = m
error_text (wrapped prefix e) = prefix ++ codes ": " ++ error_text e
