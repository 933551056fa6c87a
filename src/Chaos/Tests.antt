-- ===== src/Chaos/Tests.antt =====
-- Fault rules and an engine of core/chaos/, and the theorems at work on them.
use vendorfake.Prelude.{
  List, ℕ, ◌+◌, ◌≤◌, String, ◌≡◌, refl, ◌↔◌, ◌⊎◌, true, none, some, [], ◌∷◌, In,
}
use vendorfake.Dict
use vendorfake.Dict.{Dict}
use vendorfake.Registry.Defs.{
  Registry, is_enabled, blocked_by, blocked_parent, parent, first_unmet, requires,
}
use vendorfake.Chaos.Glob.{glob_match, Matches, glob_match_iff}
use vendorfake.Chaos.Rules.{ChaosRule, ChaosWhen, request}
use vendorfake.Chaos.Engine.{ChaosSubject, ChaosDecision, ChaosEngine}
use vendorfake.Chaos.Status.{HaveStates, EngineCall, add_call, evaluate_call, remove_call}
use vendorfake.Chaos.Evaluate.{
  evaluate, applies, rule_matches, state_of, should_fire, counters_allow, draw,
}
use vendorfake.Chaos.Counters.{matches_of, fires_of, fired, applying}
use vendorfake.Chaos.Firing.{evaluate_counts, evaluate_within_times}

abbrev twice : ChaosWhen
twice = record {
  nth = none;
  every = none;
  after = none;
  times = some 2;
  always = none;
  probability = none;
}

abbrev slow_rule : ChaosRule
slow_rule = record {
  id = "slow";
  scope = request;
  fault = "timeout";
  matching = none;
  when = some twice;
  params = none;
  note = none;
}

abbrev busy_rule : ChaosRule
busy_rule = record slow_rule { id = "busy"; fault = "rate_limited"; when = none }

abbrev subject : ChaosSubject
subject = record {
  scope = request;
  route_key = some "POST /v2/orders";
  method = some "POST";
  path = some "/v2/orders";
  capability = some "orders";
  event_type = none;
  headers = [];
  body_text = none;
}

abbrev engine : ChaosEngine
engine = record {
  rng = record { stream = λ n. 0; draws = 0 };
  now_iso = "2025-01-01T00:00:00.000Z";
  rules = slow_rule ∷ busy_rule ∷ [];
  state = ("slow", record { matches = 1; fires = 1 }) ∷ [];
  history = [];
  enabled = true;
}

abbrev slow_decision : ChaosDecision
slow_decision = record { rule_id = "slow"; fault = "timeout"; params = []; occurrence = 2 }

decides : (evaluate subject engine).0 ≡ some slow_decision
unfolding evaluate applies rule_matches state_of should_fire counters_allow draw Dict.get Dict.put
decides = refl

abbrev pattern_text : String
pattern_text = "POST /v2/*"

glob_match_iff_example :
    (glob_match pattern_text "POST /v2/orders" ≡ true)
    ↔ ((pattern_text ≡ "POST /v2/orders") ⊎ Matches pattern_text "POST /v2/orders")
glob_match_iff_example = glob_match_iff pattern_text "POST /v2/orders"

evaluate_counts_example :
    (matches_of (evaluate subject engine).1.state "busy"
      ≡ matches_of engine.state "busy" + applying subject "busy" engine.rules)
    × (fires_of (evaluate subject engine).1.state "busy"
        ≡ fires_of engine.state "busy" + fired (evaluate subject engine).0 "busy")
evaluate_counts_example = evaluate_counts subject engine "busy" refl

evaluate_within_times_example :
    (rule : ChaosRule) × In rule engine.rules
    × (applies rule subject ≡ true)
    × (slow_decision.rule_id ≡ rule.id)
    × (slow_decision.fault ≡ rule.fault)
    × ((w : ChaosWhen) (n : ℕ)
        → rule.when ≡ some w
        → w.times ≡ some n
        → fires_of (evaluate subject engine).1.state rule.id ≤ n)
evaluate_within_times_example = evaluate_within_times subject engine slow_decision refl decides

abbrev third_rule : ChaosRule
third_rule = record busy_rule { id = "third" }

abbrev more_rules : ChaosEngine
more_rules = record engine { rules = slow_rule ∷ busy_rule ∷ third_rule ∷ [] }

abbrev registry : Registry
registry = record {
  profile_name = "full";
  declared = [];
  routes_by_capability = [];
  enabled = "chaos" ∷ [];
}

chaos_open : is_enabled registry "chaos" ≡ true
unfolding is_enabled blocked_by blocked_parent parent first_unmet requires Dict.get
chaos_open = refl

abbrev listed_engine : ChaosEngine
listed_engine = record engine { rules = slow_rule ∷ [] }

slow_has_state : HaveStates listed_engine.state listed_engine.rules
unfolding Dict.has
slow_has_state = (refl, tt)

abbrev engine_calls : List EngineCall
engine_calls = add_call busy_rule ∷ evaluate_call subject ∷ remove_call "slow" ∷ []
