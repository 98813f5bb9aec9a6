-- ===== src/Client/Answer.antt =====
-- client/index.js: what the registry answers about a tool. Times are in seconds.
use monadguard.Base.{ℕ, Bool, Option, List, [], ◌∷◌, Text, get_elem?}

-- `VERDICTS[v]`, where it is not `undefined`.
pub data Verdict : Type 0 where
  unknown clean warn critical : Verdict

unfoldable pub verdict_name : ℕ → Option Verdict
verdict_name v =
    get_elem? (Verdict.unknown ∷ Verdict.clean ∷ Verdict.warn ∷ Verdict.critical ∷ []) v

-- One attestor's own latest verdict. The verdict is `none` where the code is out of range, and the
-- address where the REST mirror gives none.
pub record Attestation : Type 0 where
  pub address : Option Text
  pub verdict : Option Verdict
  pub score : ℕ
  pub content_hash : Option Text
  pub timestamp : ℕ
  pub tx_hash : Option Text

pub data Source : Type 0 where
  envio api : Source

pub record Candidate : Type 0 where
  pub tool_id : Text
  pub kind : Text
  pub name : Text
  pub origin : Text

pub record Answer : Type 0 where
  pub known : Bool
  pub tool_id : Option Text
  pub verdict : Verdict
  pub score : Option ℕ
  pub scans : ℕ
  pub attestors : List Attestation
  pub last_seen : Option ℕ
  pub source : Source
  pub resolved : Option Candidate
  pub candidates : Option (List Candidate)
