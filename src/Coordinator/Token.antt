-- ===== src/Coordinator/Token.antt =====
-- `CancellationToken` of src/yamazaki/service.py: an event that can be set and is never cleared.
use yamazaki_incubator.Base.{Bool, true, false}
use yamazaki_incubator.Base.Exec.{Exec, modify, gets}

pub record CancellationToken : Type 0 where
  pub is_set : Bool

abbrev pub new_token : CancellationToken
new_token = record { is_set = false }

unfoldable pub cancel : Exec CancellationToken (Unit {0})
cancel = modify (λ token. record token { is_set = true })

unfoldable pub cancelled : Exec CancellationToken Bool
cancelled = gets CancellationToken.is_set
