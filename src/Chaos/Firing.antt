-- ===== src/Chaos/Firing.antt =====
-- Proofs about the decision and the counters of `ChaosEngine.evaluate`.
use vendorfake.Prelude.{
  ℕ, ◌+◌, ◌≤◌, String, ◌≡◌, refl, sym, ap, ◌∙◌, true, false, Option, none, some, List, [], ◌∷◌,
  ◌++◌, arith, Bool-cases, Option-cases, inl, inr, In,
}
use vendorfake.Text.{text_eq, text_eq_refl}
use vendorfake.Ring.{push}
use vendorfake.Chaos.Rules.{ChaosRule, ChaosWhen}
use vendorfake.Chaos.Engine.{
  ChaosSubject, ChaosDecision, ChaosEvent, ChaosEngine, event_of, label, chaos_history_capacity,
}
use vendorfake.Chaos.Evaluate.{Loop, applies, visit, evaluate}
use vendorfake.Chaos.Counters.{matches_of, fires_of, fired, applying}
use vendorfake.Chaos.Visit.{visit_counts, visit_spends, visit_stays, visit-append, visit_chooses}

-- The loop that `evaluate` runs.
abbrev pub start : ChaosEngine → Loop
start e = record { state = e.state; rng = e.rng; decision = none }

pub evaluate_on :
    (s : ChaosSubject) (e : ChaosEngine)
    → e.enabled ≡ true
    → ((evaluate s e).0 ≡ (visit s e.rules (start e)).decision)
      × ((evaluate s e).1.state ≡ (visit s e.rules (start e)).state)
unfolding evaluate
evaluate_on s e on = elim (Option-cases (visit s e.rules (start e)).decision) [
  | inl nothing ↦ (ground (arith, on), ground (arith, on, nothing))
  | inr (d, decided) ↦ (ground (arith, on), ground (arith, on, decided))
]

-- Every evaluation counts one match for each rule that applies to the subject, whether or not the
-- rule fires, and one fire for the rule of the decision, if there is one; so at most one rule fires
-- and no rule's number is changed by another.
pub evaluate_counts :
    (s : ChaosSubject) (e : ChaosEngine) (k : String)
    → e.enabled ≡ true
    → (matches_of (evaluate s e).1.state k ≡ matches_of e.state k + applying s k e.rules)
      × (fires_of (evaluate s e).1.state k ≡ fires_of e.state k + fired (evaluate s e).0 k)
evaluate_counts s e k on =
    let (decision, state) = evaluate_on s e on in
    (
      rw state (visit_counts s e.rules (start e) k),
      rw (state, decision) (omega (arith, visit_spends s e.rules (start e) k)),
    )

-- A decision is always that of a listed rule which applies to the subject, and a rule with a
-- `times` limit never has more fires than the limit afterwards.
pub evaluate_within_times :
    (s : ChaosSubject) (e : ChaosEngine) (d : ChaosDecision)
    → e.enabled ≡ true
    → (evaluate s e).0 ≡ some d
    → (rule : ChaosRule) × In rule e.rules
      × (applies rule s ≡ true)
      × (d.rule_id ≡ rule.id)
      × (d.fault ≡ rule.fault)
      × ((w : ChaosWhen) (n : ℕ)
          → rule.when ≡ some w
          → w.times ≡ some n
          → fires_of (evaluate s e).1.state rule.id ≤ n)
evaluate_within_times s e d on h =
    let (decision, state) = evaluate_on s e on in
    let c = visit_chooses s e.rules (start e) d refl (sym decision ∙ h) in
    (
      c.rule,
      c.listed,
      c.hits,
      c.named.0,
      c.named.1,
      λ w n e₁ t. ground (
        arith,
        c.limit w n e₁ t,
        (evaluate_counts s e c.rule.id on).1,
        h,
        c.named.0,
        text_eq_refl c.rule.id,
      ),
    )

-- The history after a decision about a subject.
abbrev pub with_event : ChaosSubject → ChaosEngine → Option ChaosDecision → List ChaosEvent
with_event s e none = e.history
with_event s e (some d) = push chaos_history_capacity e.history (event_of d e.now_iso (label s))

-- The history gets exactly the decision of the evaluation, if there is one, and neither the rules
-- nor the switch change.
pub evaluate_history :
    (s : ChaosSubject) (e : ChaosEngine)
    → ((evaluate s e).1.history ≡ with_event s e (evaluate s e).0)
      × ((evaluate s e).1.rules ≡ e.rules)
      × ((evaluate s e).1.enabled ≡ e.enabled)
unfolding evaluate
evaluate_history s e = elim (Bool-cases e.enabled) [
  | inl on ↦ elim (Option-cases (visit s e.rules (start e)).decision) [
    | inl nothing ↦
        (ground (arith, on, nothing), ground (arith, on, nothing), ground (arith, on, nothing))
    | inr (d, decided) ↦
        (ground (arith, on, decided), ground (arith, on, decided), ground (arith, on, decided))
  ]
  | inr off ↦ (ground (arith, off), ground (arith, off), ground (arith, off))
]

applying_append :
    (s : ChaosSubject) (k : String) (rule : ChaosRule)
    → text_eq rule.id k ≡ false
    → (rules : List ChaosRule) → applying s k (rules ++ rule ∷ []) ≡ applying s k rules
applying_append s k rule other [] = ground (arith, other)
applying_append s k rule other (r ∷ rs) = ground (arith, applying_append s k rule other rs)

-- A rule that is added behind the others renumbers nothing: every rule with another id has the
-- counters that it would have had, and a decision that the others take is the same.
pub later_rule_changes_nothing :
    (s : ChaosSubject) (e : ChaosEngine) (rule : ChaosRule)
    → e.enabled ≡ true
    → let more = record e { rules = e.rules ++ rule ∷ [] } in
      ((k : String)
        → text_eq rule.id k ≡ false
        → matches_of (evaluate s more).1.state k ≡ matches_of (evaluate s e).1.state k)
      × ((d : ChaosDecision) → (evaluate s e).0 ≡ some d → (evaluate s more).0 ≡ some d)
later_rule_changes_nothing s e rule on =
    let more : ChaosEngine = record e { rules = e.rules ++ rule ∷ [] } in
    let split = visit-append s e.rules (rule ∷ []) (start e) in
    (
      λ k other. omega (
        arith,
        (evaluate_counts s more k on).0,
        (evaluate_counts s e k on).0,
        applying_append s k rule other e.rules,
      ),
      λ d h.
          (evaluate_on s more on).0
          ∙ ap (λ (l : Loop). l.decision) split
          ∙ visit_stays s (rule ∷ []) (visit s e.rules (start e)) d
              (sym (evaluate_on s e on).0 ∙ h),
    )
