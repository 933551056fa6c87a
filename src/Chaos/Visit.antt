-- ===== src/Chaos/Visit.antt =====
-- The loop of `evaluate` over all the rules.
use vendorfake.Prelude.{
  ℕ, ◌+◌, ◌<◌, String, ◌≡◌, refl, true, none, some, List, [], ◌∷◌, ◌++◌, arith, if◌then◌else◌,
  Bool-cases, Option-cases, inl, inr, In,
}
use vendorfake.Dict.{Dict}
use vendorfake.Chaos.Rules.{ChaosRule, ChaosWhen}
use vendorfake.Chaos.Engine.{ChaosSubject, ChaosDecision, RuleState}
use vendorfake.Chaos.Evaluate.{Loop, applies, should_fire, counters_allow, count_rule, visit}
use vendorfake.Chaos.Counters.{matches_of, fires_of, fired, applying, does_fire, count_rule-Counted}

-- The loop with one more rule in front.
abbrev step : ChaosSubject → ChaosRule → Loop → Loop
step s rule l = if applies rule s then count_rule rule l else l

pub visit_counts :
    (s : ChaosSubject) (rules : List ChaosRule) (l : Loop) (k : String)
    → matches_of (visit s rules l).state k ≡ matches_of l.state k + applying s k rules
unfolding visit
visit_counts s [] l k = omega arith
visit_counts s (rule ∷ rules) l k = elim (Bool-cases (applies rule s)) [
  | inl hit ↦
      let later = visit_counts s rules (count_rule rule l) k in
      let now = (count_rule-Counted rule l).counts k in ground (arith, hit, later, now)
  | inr skipped ↦ ground (arith, skipped, visit_counts s rules l k)
]

pub visit_spends :
    (s : ChaosSubject) (rules : List ChaosRule) (l : Loop) (k : String)
    → fires_of (visit s rules l).state k + fired l.decision k
      ≡ fires_of l.state k + fired (visit s rules l).decision k
unfolding visit
visit_spends s [] l k = refl
visit_spends s (rule ∷ rules) l k = elim (Bool-cases (applies rule s)) [
  | inl hit ↦
      let later = visit_spends s rules (count_rule rule l) k in
      let now = (count_rule-Counted rule l).spends k in rw (hit, visit) (omega (arith, later, now))
  | inr skipped ↦ rw (skipped, visit) (visit_spends s rules l k)
]

pub visit_stays :
    (s : ChaosSubject) (rules : List ChaosRule) (l : Loop) (d : ChaosDecision)
    → l.decision ≡ some d
    → (visit s rules l).decision ≡ some d
unfolding visit
visit_stays s [] l d h = h
visit_stays s (rule ∷ rules) l d h = elim (Bool-cases (applies rule s)) [
  | inl hit ↦
      rw (hit, visit)
        (visit_stays s rules (count_rule rule l) d ((count_rule-Counted rule l).stays d h))
  | inr skipped ↦ rw (skipped, visit) (visit_stays s rules l d h)
]

pub visit-append :
    (s : ChaosSubject) (xs ys : List ChaosRule) (l : Loop)
    → visit s (xs ++ ys) l ≡ visit s ys (visit s xs l)
unfolding visit
visit-append s [] ys l = refl
visit-append s (x ∷ xs) ys l = visit-append s xs ys (step s x l)

-- Why a decision was taken: a rule of the list that applies, whose counters, with the fires that
-- it had before the loop, let it fire.
pub record Chosen (s : ChaosSubject) (rules : List ChaosRule) (before : Dict RuleState)
    (d : ChaosDecision) : Type 0 where
  pub rule : ChaosRule
  pub listed : In rule rules
  pub hits : applies rule s ≡ true
  pub named : (d.rule_id ≡ rule.id) × (d.fault ≡ rule.fault)
  pub limit :
      (w : ChaosWhen) (n : ℕ) → rule.when ≡ some w → w.times ≡ some n → fires_of before rule.id < n

times_limit :
    (rule : ChaosRule) (l : Loop) (w : ChaosWhen) (n : ℕ)
    → does_fire rule l ≡ true
    → rule.when ≡ some w
    → w.times ≡ some n
    → fires_of l.state rule.id < n
unfolding should_fire counters_allow
times_limit rule l w n f e t = ground (arith, f, e, t)

Chosen-skip :
    (s : ChaosSubject) (x : ChaosRule) (rules : List ChaosRule) (before after : Dict RuleState)
    (d : ChaosDecision)
    → ((k : String) → fires_of after k ≡ fires_of before k)
    → Chosen s rules after d
    → Chosen s (x ∷ rules) before d
Chosen-skip s x rules before after d same c = record {
  rule = c.rule;
  listed = inr c.listed;
  hits = c.hits;
  named = c.named;
  limit = λ w n e t. omega (arith, same c.rule.id, c.limit w n e t);
}

pub visit_chooses :
    (s : ChaosSubject) (rules : List ChaosRule) (l : Loop) (d : ChaosDecision)
    → l.decision ≡ none
    → (visit s rules l).decision ≡ some d
    → Chosen s rules l.state d
unfolding visit
visit_chooses s [] l d open_still h = ground (arith, open_still, h)
visit_chooses s (x ∷ rules) l d open_still h = elim (Bool-cases (applies x s)) [
  | inr skipped ↦
      Chosen-skip s x rules l.state l.state d (λ k. refl)
        (visit_chooses s rules l d open_still (rw (skipped, visit) at h))
  | inl hit ↦
      let c = count_rule-Counted x l in
      let h' : (visit s rules (count_rule x l)).decision ≡ some d = rw (hit, visit) at h in
      elim (Option-cases (count_rule x l).decision) [
        | inl still ↦
            Chosen-skip s x rules l.state (count_rule x l).state d
              (λ k. ground (arith, c.spends k, still, open_still))
              (visit_chooses s rules (count_rule x l) d still h')
        | inr (d', taken) ↦
            let kept = visit_stays s rules (count_rule x l) d' taken in
            let (same, fires) = c.chooses d' open_still taken in
            record {
              rule = x;
              listed = inl refl;
              hits = hit;
              named = (ground (arith, kept, h', same), ground (arith, kept, h', same));
              limit = λ w n e t. times_limit x l w n fires e t;
            }
      ]
]
