-- ===== src/Server/Http.antt =====
-- The responses of the handlers that change the store, with their status codes.
use monadguard.Base.{ℕ, Bool, Option, Text}
use monadguard.Store.{Db}

-- `error` has a status of 400 or more; the texts of the messages are left out.
pub data Response : Type 0 where
  error : ℕ → Response
  already_anchored : Option Text → Response
  anchored : Bool → Text → ℕ → Response
  is_queued : Response

abbrev pub Handled : Type 0
Handled = Db × Response
