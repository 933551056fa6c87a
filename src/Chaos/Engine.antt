-- ===== src/Chaos/Engine.antt =====
-- The state of `ChaosEngine` (core/chaos/engine.py) and the methods that do not evaluate.
use vendorfake.Prelude.{
  ℕ, ◌+◌, ◌-◌, String, Bool, true, not, Option, none, some, List, [], ◌∷◌, ◌++◌, map, keep, ltb,
  ◌==◌, length, if◌then◌else◌,
}
use vendorfake.Text.{text_eq}
use vendorfake.Dict
use vendorfake.Dict.{Dict}
use vendorfake.Json.{Value, pos, int, str, document}
use vendorfake.Errors.{Result, ok, err, key_error, ◌>>=◌}
use vendorfake.Ring.{push}
use vendorfake.Chaos.Rules.{ChaosRule, ChaosScope}

-- `OVERLAY_RULE_ID`
abbrev pub overlay_rule_id : String
overlay_rule_id = "magic"

abbrev pub chaos_history_capacity : ℕ
chaos_history_capacity = 10000

pub record ChaosSubject : Type 0 where
  pub scope : ChaosScope
  pub route_key : Option String
  pub method : Option String
  pub path : Option String
  pub capability : Option String
  pub event_type : Option String
  pub headers : Dict String
  pub body_text : Option String

-- `ChaosSubject.label`
unfoldable pub label : ChaosSubject → String
label s = elim s.route_key [
  | some r ↦ r
  | none ↦ elim s.event_type [ some e ↦ e | none ↦ elim s.path [ some p ↦ p | none ↦ "(unknown)" ] ]
]

pub record ChaosDecision : Type 0 where
  pub rule_id : String
  pub fault : String
  pub params : Dict Value
  pub occurrence : ℕ

pub record ChaosEvent : Type 0 where
  pub rule_id : String
  pub fault : String
  pub params : Dict Value
  pub occurrence : ℕ
  pub at : String
  pub subject : String

-- `ChaosEvent.of`
unfoldable pub event_of : ChaosDecision → String → String → ChaosEvent
event_of d at subject = record {
  rule_id = d.rule_id;
  fault = d.fault;
  params = d.params;
  occurrence = d.occurrence;
  at = at;
  subject = subject;
}

-- `_RuleState`
pub record RuleState : Type 0 where
  pub matches : ℕ
  pub fires : ℕ

abbrev pub fresh : RuleState
fresh = record { matches = 0; fires = 0 }

-- `Rng` of core/rand/rng.py: the stream that the seed gives, as 53-bit numerators, and how many
-- numbers were drawn.
pub record Rng : Type 0 where
  pub stream : ℕ → ℕ
  pub draws : ℕ

-- `Rng.next`
unfoldable pub next : Rng → ℕ × Rng
next r = (r.stream r.draws, record r { draws = r.draws + 1 })

-- `Rng.reset`
unfoldable pub reset_rng : Rng → Rng
reset_rng r = record r { draws = 0 }

-- `now_iso` is what the engine's clock reads.
pub record ChaosEngine : Type 0 where
  pub rng : Rng
  pub now_iso : String
  pub rules : List ChaosRule
  pub state : Dict RuleState
  pub history : List ChaosEvent
  pub enabled : Bool

-- `ChaosEngine.set_enabled`
unfoldable pub set_enabled : Bool → ChaosEngine → ChaosEngine
set_enabled on e = record e { enabled = on }

-- `{rule.id: _RuleState() for rule in rules}`
unfoldable pub fresh_states : Dict RuleState → List ChaosRule → Dict RuleState
fresh_states d [] = d
fresh_states d (r ∷ rs) = fresh_states (Dict.put d r.id fresh) rs

-- `ChaosEngine.replace`, of rules that are parsed.
unfoldable pub replace : List ChaosRule → ChaosEngine → ChaosEngine
unfolding fresh_states
replace rules e = record e { rules = rules; state = fresh_states [] rules }

abbrev pub without_id : String → List ChaosRule → List ChaosRule
without_id id = keep (λ r. not (text_eq r.id id))

-- `ChaosEngine.add`, of a rule that is parsed.
unfoldable pub add : ChaosRule → ChaosEngine → ChaosEngine
add rule e = record e {
  rules = without_id rule.id e.rules ++ rule ∷ [];
  state = Dict.put e.state rule.id fresh;
}

-- `ChaosEngine.remove`
unfoldable pub remove : String → ChaosEngine → Bool × ChaosEngine
remove rule_id e =
    let left = without_id rule_id e.rules in
    (
      not (length left == length e.rules),
      record e { rules = left; state = Dict.pop e.state rule_id },
    )

-- `ChaosEngine.reset`
unfoldable pub reset : ChaosEngine → ChaosEngine
unfolding reset_rng
reset e = record e { rules = []; state = []; history = []; rng = reset_rng e.rng; enabled = true }

unfoldable pub zeroed : Dict RuleState → Dict RuleState
zeroed [] = []
zeroed ((id, s) ∷ d) = (id, fresh) ∷ zeroed d

-- `ChaosEngine.reset_counters`
unfoldable pub reset_counters : ChaosEngine → ChaosEngine
unfolding zeroed reset_rng
reset_counters e = record e { state = zeroed e.state; history = []; rng = reset_rng e.rng }

-- `ChaosEngine.record_overlay`
unfoldable pub record_overlay : ChaosDecision → ChaosSubject → ChaosEngine → ChaosEngine
unfolding event_of label
record_overlay d subject e = record e {
  history = push chaos_history_capacity e.history (event_of d e.now_iso (label subject));
}

-- `ChaosEngine.refund`
unfoldable pub refund : String → ChaosEngine → ChaosEngine
refund rule_id e = elim (Dict.get e.state rule_id) [
  | none ↦ e
  | some s ↦
      if ltb 0 s.fires
      then record e { state = Dict.put e.state rule_id (record s { fires = s.fires - 1 }) }
      else e
]

-- `ChaosEngine.status`, the counters of a rule in the listing.
unfoldable pub counters : ChaosEngine → String → RuleState
counters e rule_id = elim (Dict.get e.state rule_id) [ none ↦ fresh | some s ↦ s ]

-- `RuleStatus`
pub record RuleStatus : Type 0 where
  pub rule : ChaosRule
  pub matches : ℕ
  pub fires : ℕ

abbrev pub rule_status : Dict RuleState → ChaosRule → Result RuleStatus
rule_status state rule = elim (Dict.get state rule.id) [
  | none ↦ err key_error
  | some s ↦ ok (record { rule = rule; matches = s.matches; fires = s.fires })
]

unfoldable pub statuses : Dict RuleState → List ChaosRule → Result (List RuleStatus)
statuses state [] = ok []
statuses state (rule ∷ rules) =
    rule_status state rule >>= λ row. statuses state rules >>= λ rows. ok (row ∷ rows)

-- `ChaosEngine.status`
unfoldable pub status : ChaosEngine → Result (List RuleStatus)
unfolding statuses
status e = statuses e.state e.rules

-- `ChaosEngine.list`; rules are immutable here, so a deep copy is the rule.
unfoldable pub list : ChaosEngine → List ChaosRule
list e = e.rules

-- `ChaosEngine.events`: each event is built anew from its parts.
unfoldable pub events : ChaosEngine → List ChaosEvent
unfolding event_of
events e =
    map
      (λ (v : ChaosEvent).
        event_of
          (record {
            rule_id = v.rule_id;
            fault = v.fault;
            params = v.params;
            occurrence = v.occurrence;
          })
          v.at v.subject)
      e.history

-- `ChaosDecision.as_json`
unfoldable pub decision_json : ChaosDecision → Value
decision_json d = document (
    ("rule_id", str d.rule_id)
    ∷ ("fault", str d.fault)
    ∷ ("params", document d.params)
    ∷ ("occurrence", int (pos d.occurrence))
    ∷ [])

-- `ChaosEvent.as_json`
unfoldable pub event_json : ChaosEvent → Value
event_json v = document (
    ("rule_id", str v.rule_id)
    ∷ ("fault", str v.fault)
    ∷ ("params", document v.params)
    ∷ ("occurrence", int (pos v.occurrence))
    ∷ ("at", str v.at)
    ∷ ("subject", str v.subject)
    ∷ [])
