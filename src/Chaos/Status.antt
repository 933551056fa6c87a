-- ===== src/Chaos/Status.antt =====
-- Proofs about the listing of the rules, `ChaosEngine.status`, over any sequence of calls.
use vendorfake.Prelude.{
  String, ◌≡◌, refl, ap, Bool, true, false, List, [], ◌∷◌, map, arith, All, All-append, Bool-cases,
  Option-cases, inl, inr, ltb,
}
use vendorfake.Text.{text_eq, text_eq_refl, text_eq_comm}
use vendorfake.Dict
use vendorfake.Dict.{Dict}
use vendorfake.Dict.Laws.{has-put, has-pop, has-eq-get}
use vendorfake.Errors.{ok}
use vendorfake.Chaos.Rules.{ChaosRule}
use vendorfake.Chaos.Engine.{
  ChaosSubject, ChaosDecision, RuleState, ChaosEngine, RuleStatus, fresh, fresh_states, replace,
  add, remove, reset, reset_counters, refund, record_overlay, set_enabled, zeroed, without_id,
  statuses, status,
}
use vendorfake.Chaos.Evaluate.{Loop, applies, count_rule, visit, evaluate}
use vendorfake.Chaos.Counters.{does_fire, count_rule_decided, count_rule_fires, count_rule_passes}
use vendorfake.Chaos.Firing.{start, evaluate_on, evaluate_history}

-- Every rule of the list has a state.
abbrev pub HaveStates : Dict RuleState → List ChaosRule → Type 0
HaveStates d = All (λ r. Dict.has d r.id ≡ true)

-- The states of `e` cover those of `d`.
abbrev Covers : Dict RuleState → Dict RuleState → Type 0
Covers e d = (k : String) → Dict.has d k ≡ true → Dict.has e k ≡ true

HaveStates-mono :
    (d e : Dict RuleState) (rs : List ChaosRule) → Covers e d → HaveStates d rs → HaveStates e rs
HaveStates-mono d e [] c h = tt
HaveStates-mono d e (r ∷ rs) c h = (c r.id h.0, HaveStates-mono d e rs c h.1)

put-Covers : (d : Dict RuleState) (id : String) (s : RuleState) → Covers (Dict.put d id s) d
put-Covers d id s k h = ground (arith, has-put d id k s, h)

fresh_states-Covers : (d : Dict RuleState) (rs : List ChaosRule) → Covers (fresh_states d rs) d
unfolding fresh_states
fresh_states-Covers d [] k h = h
fresh_states-Covers d (r ∷ rs) k h =
    fresh_states-Covers (Dict.put d r.id fresh) rs k (put-Covers d r.id fresh k h)

fresh_states-HaveStates :
    (d : Dict RuleState) (rs : List ChaosRule) → HaveStates (fresh_states d rs) rs
unfolding fresh_states
fresh_states-HaveStates d [] = tt
fresh_states-HaveStates d (r ∷ rs) = (
  fresh_states-Covers (Dict.put d r.id fresh) rs r.id
      (ground (arith, has-put d r.id r.id fresh, text_eq_refl r.id)),
  fresh_states-HaveStates (Dict.put d r.id fresh) rs,
)

keep-HaveStates :
    (d e : Dict RuleState) (id : String) (rs : List ChaosRule)
    → ((k : String) → text_eq k id ≡ false → Dict.has d k ≡ true → Dict.has e k ≡ true)
    → HaveStates d rs
    → HaveStates e (without_id id rs)
keep-HaveStates d e id [] c h = tt
keep-HaveStates d e id (r ∷ rs) c h = elim (Bool-cases (text_eq r.id id)) [
  | inl same ↦ rw same (keep-HaveStates d e id rs c h.1)
  | inr other ↦ rw other (c r.id other h.0, keep-HaveStates d e id rs c h.1)
]

zeroed-Covers : (d : Dict RuleState) → Covers (zeroed d) d
unfolding zeroed Dict.has
zeroed-Covers [] k h = h
zeroed-Covers ((i, s) ∷ d) k h = ground (arith, zeroed-Covers d k)

count_rule-Covers : (rule : ChaosRule) (l : Loop) → Covers (count_rule rule l).state l.state
count_rule-Covers rule l k h = elim (Option-cases l.decision) [
  | inr (d, decided) ↦ rw (count_rule_decided rule l d decided) (put-Covers l.state rule.id _ k h)
  | inl undecided ↦ elim (Bool-cases (does_fire rule l)) [
    | inl now ↦ rw (count_rule_fires rule l undecided now) (put-Covers l.state rule.id _ k h)
    | inr later ↦ rw (count_rule_passes rule l undecided later) (put-Covers l.state rule.id _ k h)
  ]
]

visit-Covers :
    (s : ChaosSubject) (rs : List ChaosRule) (l : Loop) → Covers (visit s rs l).state l.state
unfolding visit
visit-Covers s [] l k h = h
visit-Covers s (r ∷ rs) l k h = elim (Bool-cases (applies r s)) [
  | inl hit ↦ rw (hit, visit) (visit-Covers s rs (count_rule r l) k (count_rule-Covers r l k h))
  | inr skipped ↦ rw (skipped, visit) (visit-Covers s rs l k h)
]

-- What the control plane and the pipeline do to the engine.
pub data EngineCall : Type 0 where
  replace_call : List ChaosRule → EngineCall
  add_call : ChaosRule → EngineCall
  remove_call : String → EngineCall
  evaluate_call : ChaosSubject → EngineCall
  refund_call : String → EngineCall
  overlay_call : ChaosDecision → ChaosSubject → EngineCall
  enabled_call : Bool → EngineCall
  reset_counters_call : EngineCall
  reset_call : EngineCall

unfoldable pub call_engine : EngineCall → ChaosEngine → ChaosEngine
call_engine (replace_call rules) e = replace rules e
call_engine (add_call rule) e = add rule e
call_engine (remove_call id) e = (remove id e).1
call_engine (evaluate_call s) e = (evaluate s e).1
call_engine (refund_call id) e = refund id e
call_engine (overlay_call d s) e = record_overlay d s e
call_engine (enabled_call on) e = set_enabled on e
call_engine reset_counters_call e = reset_counters e
call_engine reset_call e = reset e

unfoldable pub call_all : List EngineCall → ChaosEngine → ChaosEngine
unfolding call_engine
call_all [] e = e
call_all (c ∷ cs) e = call_all cs (call_engine c e)

evaluate_off :
    (s : ChaosSubject) (e : ChaosEngine) → e.enabled ≡ false → (evaluate s e).1.state ≡ e.state
unfolding evaluate
evaluate_off s e off = ground (arith, off)

evaluate-Covers : (s : ChaosSubject) (e : ChaosEngine) → Covers (evaluate s e).1.state e.state
evaluate-Covers s e k there = elim (Bool-cases e.enabled) [
  | inl on ↦ rw (evaluate_on s e on).1 (visit-Covers s e.rules (start e) k there)
  | inr off ↦ rw (evaluate_off s e off) there
]

evaluate-HaveStates :
    (s : ChaosSubject) (e : ChaosEngine)
    → HaveStates e.state e.rules
    → HaveStates (evaluate s e).1.state (evaluate s e).1.rules
evaluate-HaveStates s e h =
    let rules = (evaluate_history s e).1 in
    rw rules (HaveStates-mono e.state (evaluate s e).1.state e.rules (evaluate-Covers s e) h)

refund-HaveStates :
    (id : String) (e : ChaosEngine)
    → HaveStates e.state e.rules
    → HaveStates (refund id e).state (refund id e).rules
unfolding refund
refund-HaveStates id e h = elim (Option-cases (Dict.get e.state id)) [
  | inl absent ↦ rw (absent, refund) h
  | inr (s, found) ↦ elim (Bool-cases (ltb 0 s.fires)) [
    | inl some_fires ↦
        rw (found, refund)
          (rw some_fires (HaveStates-mono e.state _ e.rules (put-Covers e.state id _) h))
    | inr no_fires ↦ rw (found, refund) (rw no_fires h)
  ]
]

add-HaveStates :
    (rule : ChaosRule) (e : ChaosEngine)
    → HaveStates e.state e.rules
    → HaveStates (add rule e).state (add rule e).rules
unfolding add
add-HaveStates rule e h =
    let d = Dict.put e.state rule.id fresh in
    All-append (λ r. Dict.has d r.id ≡ true) (without_id rule.id e.rules) (rule ∷ [])
      (keep-HaveStates e.state d rule.id e.rules (λ k other. put-Covers e.state rule.id fresh k) h)
      (ground (arith, has-put e.state rule.id rule.id fresh, text_eq_refl rule.id), tt)

remove-HaveStates :
    (id : String) (e : ChaosEngine)
    → HaveStates e.state e.rules
    → HaveStates (remove id e).1.state (remove id e).1.rules
unfolding remove
remove-HaveStates id e h =
    keep-HaveStates e.state (Dict.pop e.state id) id e.rules
      (λ k other there. ground (arith, has-pop e.state id k, text_eq_comm id k, other, there)) h

call_engine-HaveStates :
    (c : EngineCall) (e : ChaosEngine)
    → HaveStates e.state e.rules
    → HaveStates (call_engine c e).state (call_engine c e).rules
unfolding call_engine replace record_overlay set_enabled reset_counters reset
call_engine-HaveStates (replace_call rules) e h = fresh_states-HaveStates [] rules
call_engine-HaveStates (add_call rule) e h = add-HaveStates rule e h
call_engine-HaveStates (remove_call id) e h = remove-HaveStates id e h
call_engine-HaveStates (evaluate_call s) e h = evaluate-HaveStates s e h
call_engine-HaveStates (refund_call id) e h = refund-HaveStates id e h
call_engine-HaveStates (overlay_call d s) e h = h
call_engine-HaveStates (enabled_call on) e h = h
call_engine-HaveStates reset_counters_call e h =
    HaveStates-mono e.state (zeroed e.state) e.rules (zeroed-Covers e.state) h
call_engine-HaveStates reset_call e h = tt

call_all-HaveStates :
    (cs : List EngineCall) (e : ChaosEngine)
    → HaveStates e.state e.rules
    → HaveStates (call_all cs e).state (call_all cs e).rules
unfolding call_all
call_all-HaveStates [] e h = h
call_all-HaveStates (c ∷ cs) e h =
    call_all-HaveStates cs (call_engine c e) (call_engine-HaveStates c e h)

statuses-ok :
    (d : Dict RuleState) (rs : List ChaosRule)
    → HaveStates d rs
    → (rows : List RuleStatus) × (statuses d rs ≡ ok rows)
      × (map (λ (row : RuleStatus). row.rule) rows ≡ rs)
unfolding statuses
statuses-ok d [] h = ([], refl, refl)
statuses-ok d (r ∷ rs) h = elim (Option-cases (Dict.get d r.id)) [
  | inl absent ↦ ground (arith, h.0, has-eq-get d r.id, absent)
  | inr (s, found) ↦
      let (rows, returns, same) = statuses-ok d rs h.1 in
      (
        record { rule = r; matches = s.matches; fires = s.fires } ∷ rows,
        ground (arith, found, returns),
        ap (λ (xs : List ChaosRule). r ∷ xs) same,
      )
]

-- Whatever calls are made to an engine whose rules all have their counters, none of them loses a
-- rule's counters: the listing of the rules does not raise, and has one row for each rule in order.
pub call_all-status :
    (cs : List EngineCall) (e : ChaosEngine)
    → HaveStates e.state e.rules
    → (rows : List RuleStatus) × (status (call_all cs e) ≡ ok rows)
      × (map (λ (row : RuleStatus). row.rule) rows ≡ (call_all cs e).rules)
unfolding status
call_all-status cs e h =
    statuses-ok (call_all cs e).state (call_all cs e).rules (call_all-HaveStates cs e h)
