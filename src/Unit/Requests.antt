-- ===== src/Unit/Requests.antt =====
-- `RequestLog` of core/kernel/unit.py and `RequestRecord` of core/kernel/types.py.
use vendorfake.Prelude.{
  ℕ, String, Bool, true, false, not, ◌&&◌, Option, none, some, List, [], ◌∷◌, ◌++◌, keep, length,
  take, ◌==◌, if◌then◌else◌,
}
use vendorfake.Text.{text_eq}
use vendorfake.Ring.{push}

-- `params.commit` of a fault
pub data CommitMode : Type 0 where
  before after : CommitMode

-- The duration and the near misses are not kept.
pub record RequestRecord : Type 0 where
  pub id : String
  pub received_at : String
  pub method : String
  pub path : String
  pub route : Option String
  pub operation_id : Option String
  pub status : ℕ
  pub matched : Bool
  pub fault : Option String
  pub rule_id : Option String
  pub committed_journal_seq : Option ℕ
  pub discarded_mutation : Bool
  pub fault_commit : Option CommitMode

pub record RequestLog : Type 0 where
  pub capacity : ℕ
  pub records : List RequestRecord

-- `RequestLog.record`
unfoldable pub record_request : RequestRecord → RequestLog → RequestLog
record_request entry log =
    if log.capacity == 0 then log else record log { records = push log.capacity log.records entry }

-- `RequestLog.clear`
unfoldable pub clear_requests : RequestLog → ℕ × RequestLog
clear_requests log = (length log.records, record log { records = [] })

-- `found.reverse()`
unfoldable pub reversed {ℓ} : {A : Type ℓ} → List A → List A
reversed [] = []
reversed (x ∷ xs) = reversed xs ++ x ∷ []

abbrev pub same_option : Option String → Option String → Bool
same_option none found = true
same_option (some wanted) none = false
same_option (some wanted) (some t) = text_eq t wanted

abbrev pub other_bool : Option Bool → Bool → Bool
other_bool none found = true
other_bool (some true) found = not found
other_bool (some false) found = found

-- The filters of `RequestLog.records`.
unfoldable pub selects : Option String → Option String → Option Bool → RequestRecord → Bool
selects operation_id route unmatched entry =
    same_option operation_id entry.operation_id
    && same_option route entry.route
    && other_bool unmatched entry.matched

abbrev pub limited : Option ℕ → List RequestRecord → List RequestRecord
limited none entries = entries
limited (some n) entries = take n entries

-- `RequestLog.records`; a limit is not negative.
unfoldable pub records :
    Option String → Option String → Option Bool → Option ℕ → RequestLog → List RequestRecord
unfolding reversed selects
records operation_id route unmatched limit log =
    limited limit (keep (selects operation_id route unmatched) (reversed log.records))
