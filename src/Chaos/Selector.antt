-- ===== src/Chaos/Selector.antt =====
-- `FaultSelector` of core/chaos/selector.py: the gates, and which source of faults wins.
use vendorfake.Prelude.{
  String, ◌≡◌, refl, true, Option, none, some, List, [], ◌∷◌, map, arith, if◌then◌else◌,
}
use vendorfake.Dict.{Dict}
use vendorfake.Json.{Value, str}
use vendorfake.Errors.{Result, ok, err, value_error}
use vendorfake.Ring.{push}
use vendorfake.Registry.Defs.{Registry, is_enabled}
use vendorfake.Chaos.Rules.{request, webhook}
use vendorfake.Chaos.Engine.{
  ChaosSubject, ChaosDecision, ChaosEngine, overlay_rule_id, record_overlay, event_of, label,
  chaos_history_capacity,
}
use vendorfake.Chaos.Evaluate.{evaluate, same_scope}

-- `MagicExtraction` of core/kernel/magic.py
pub record MagicExtraction : Type 0 where
  pub faults : List String
  pub params : Dict String

pub data FaultSource : Type 0 where
  no_source in_band rule : FaultSource

pub record FaultSelection : Type 0 where
  pub decision : Option ChaosDecision
  pub source : FaultSource
  pub in_band_faults : List String
  pub in_band_params : Dict String

-- `_NOTHING`
abbrev pub nothing : FaultSelection
nothing = record { decision = none; source = no_source; in_band_faults = []; in_band_params = [] }

abbrev pub as_values : Dict String → Dict Value
as_values d = map (λ (k, v). (k, str v)) d

-- The decision of an in-band fault.
abbrev pub overlay : String → Dict String → ChaosDecision
overlay fault params = record {
  rule_id = overlay_rule_id;
  fault = fault;
  params = as_values params;
  occurrence = 1;
}

-- `standing = self._engine.evaluate(subject)` and the selection made of it.
unfoldable pub select_standing : ChaosSubject → ChaosEngine → FaultSelection × ChaosEngine
select_standing s e =
    let (decision, e') = evaluate s e in
    elim decision [
      | none ↦ (nothing, e')
      | some d ↦ (record nothing { decision = some d; source = rule }, e')
    ]

-- What follows the gate in `select_request`.
unfoldable pub select_open :
    ChaosSubject → Option MagicExtraction → ChaosEngine → FaultSelection × ChaosEngine
unfolding select_standing
select_open s none e = select_standing s e
select_open s (some m) e = elim m.faults [
  | [] ↦ select_standing s e
  | fault ∷ rest ↦ (
    record {
      decision = some (overlay fault m.params);
      source = in_band;
      in_band_faults = m.faults;
      in_band_params = m.params;
    },
    record_overlay (overlay fault m.params) s e,
  )
]

-- `FaultSelector.select_request`; `magic` is what the extraction of in-band values, which
-- changes nothing, returns behind the gate.
unfoldable pub select_request :
    Registry
    → ChaosSubject
    → Option MagicExtraction
    → ChaosEngine
    → Result (FaultSelection × ChaosEngine)
unfolding select_open
select_request r s magic e =
    if same_scope s.scope request
    then (if is_enabled r "chaos" then ok (select_open s magic e) else ok (nothing, e))
    else err value_error

-- `FaultSelector.select_webhook`
unfoldable pub select_webhook :
    Registry → ChaosSubject → ChaosEngine → Result (Option ChaosDecision × ChaosEngine)
select_webhook r s e =
    if same_scope s.scope webhook
    then (if is_enabled r "webhooks.chaos" then ok (evaluate s e) else ok (none, e))
    else err value_error

-- An in-band fault wins over every standing rule: the first fault that the request names is armed,
-- no counter and no random number is used, and only the history gets an entry, under the rule id
-- `magic`.
pub in_band_wins :
    (r : Registry) (s : ChaosSubject) (fault : String) (rest : List String) (params : Dict String)
    (e : ChaosEngine)
    → is_enabled r "chaos" ≡ true
    → s.scope ≡ request
    → (e' : ChaosEngine) × (select_request r s
          (some (record { faults = fault ∷ rest; params = params }))
          e
        ≡ ok (
          record {
            decision = some (overlay fault params);
            source = in_band;
            in_band_faults = fault ∷ rest;
            in_band_params = params;
          },
          e',
        ))
      × (e'.state ≡ e.state)
      × (e'.rng ≡ e.rng)
      × (e'.rules ≡ e.rules)
      × (e'.history
          ≡ push chaos_history_capacity e.history
              (event_of (overlay fault params) e.now_iso (label s)))
unfolding select_request record_overlay
in_band_wins r s fault rest params e gate scope =
    (record_overlay (overlay fault params) s e, ground (arith, gate, scope), refl, refl, refl, refl)
