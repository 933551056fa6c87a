-- ===== src/Chaos/Counters.antt =====
-- What `evaluate` does to the counters.
use vendorfake.Prelude.{
  ℕ, ◌+◌, String, ◌≡◌, refl, ap, Bool, true, false, ◌&&◌, Option, none, some, List, keep, arith,
  length, if◌then◌else◌, Bool-cases, Option-cases, inl, inr,
}
use vendorfake.Text.{text_eq, text_eq_iff}
use vendorfake.Dict
use vendorfake.Dict.{Dict}
use vendorfake.Dict.Laws.{get-put}
use vendorfake.Chaos.Rules.{ChaosRule}
use vendorfake.Chaos.Engine.{ChaosSubject, ChaosDecision, RuleState}
use vendorfake.Chaos.Evaluate.{Loop, applies, should_fire, state_of, try_rule, count_rule, decide}

abbrev pub matches_of : Dict RuleState → String → ℕ
matches_of d id = (state_of d id).matches

abbrev pub fires_of : Dict RuleState → String → ℕ
fires_of d id = (state_of d id).fires

-- 1 for the rule that a decision names.
abbrev pub fired : Option ChaosDecision → String → ℕ
fired none id = 0
fired (some d) id = if text_eq d.rule_id id then 1 else 0

-- How many rules of the list have the id and apply.
abbrev pub applying : ChaosSubject → String → List ChaosRule → ℕ
applying s id rules = length (keep (λ r. applies r s && text_eq r.id id) rules)

pub state_of-put :
    (d : Dict RuleState) (id k : String) (st : RuleState)
    → state_of (Dict.put d id st) k ≡ (if text_eq id k then st else state_of d k)
unfolding state_of
state_of-put d id k st = ground (arith, get-put d id k st)

-- The state of a rule with one more match.
abbrev pub counted : Dict RuleState → String → RuleState
counted d id = record (state_of d id) { matches = matches_of d id + 1 }

state_of_eq : (d : Dict RuleState) (i k : String) → text_eq i k ≡ true → state_of d i ≡ state_of d k
state_of_eq d i k h = ap (state_of d) ((text_eq_iff i k).0 h)

-- An applying rule when a decision is taken already: its match is counted, and that is all.
pub count_rule_decided :
    (rule : ChaosRule) (l : Loop) (d : ChaosDecision)
    → l.decision ≡ some d
    → count_rule rule l ≡ record l { state = Dict.put l.state rule.id (counted l.state rule.id) }
unfolding count_rule
count_rule_decided rule l d h = ground (arith, h)

abbrev pub does_fire : ChaosRule → Loop → Bool
does_fire rule l = (should_fire rule (counted l.state rule.id) l.rng).0

pub count_rule_fires :
    (rule : ChaosRule) (l : Loop)
    → l.decision ≡ none
    → does_fire rule l ≡ true
    → count_rule rule l ≡ record {
      state =
          Dict.put l.state rule.id
            (record (counted l.state rule.id) { fires = fires_of l.state rule.id + 1 });
      rng = (should_fire rule (counted l.state rule.id) l.rng).1;
      decision = some (decide rule (counted l.state rule.id));
    }
unfolding count_rule try_rule
count_rule_fires rule l h f = ground (arith, h, f)

pub count_rule_passes :
    (rule : ChaosRule) (l : Loop)
    → l.decision ≡ none
    → does_fire rule l ≡ false
    → count_rule rule l ≡ record {
      state = Dict.put l.state rule.id (counted l.state rule.id);
      rng = (should_fire rule (counted l.state rule.id) l.rng).1;
      decision = none;
    }
unfolding count_rule try_rule
count_rule_passes rule l h f = ground (arith, h, f)

-- What an applying rule does to the counters of every rule, and to the decision.
pub record Counted (rule : ChaosRule) (l l' : Loop) : Type 0 where
  pub counts :
      (k : String)
      → matches_of l'.state k
        ≡ (if text_eq rule.id k then matches_of l.state k + 1 else matches_of l.state k)
  pub spends :
      (k : String)
      → fires_of l'.state k + fired l.decision k ≡ fires_of l.state k + fired l'.decision k
  pub stays : (d : ChaosDecision) → l.decision ≡ some d → l'.decision ≡ some d
  pub chooses :
      (d : ChaosDecision)
      → l.decision ≡ none
      → l'.decision ≡ some d
      → (d ≡ decide rule (counted l.state rule.id)) × (does_fire rule l ≡ true)

counted_put :
    (d : Dict RuleState) (id k : String) (st : RuleState)
    → st.matches ≡ matches_of d id + 1
    → matches_of (Dict.put d id st) k
      ≡ (if text_eq id k then matches_of d k + 1 else matches_of d k)
counted_put d id k st h = elim (Bool-cases (text_eq id k)) [
  | inl same ↦ ground (arith, state_of-put d id k st, state_of_eq d id k same, h, same)
  | inr other ↦ ground (arith, state_of-put d id k st, other)
]

fires_put :
    (d : Dict RuleState) (id k : String) (st : RuleState) (n : ℕ)
    → st.fires ≡ fires_of d id + n
    → fires_of (Dict.put d id st) k ≡ (if text_eq id k then fires_of d k + n else fires_of d k)
fires_put d id k st n h = elim (Bool-cases (text_eq id k)) [
  | inl same ↦ ground (arith, state_of-put d id k st, state_of_eq d id k same, h, same)
  | inr other ↦ ground (arith, state_of-put d id k st, other)
]

pub count_rule-Counted : (rule : ChaosRule) (l : Loop) → Counted rule l (count_rule rule l)
count_rule-Counted rule l = elim (Option-cases l.decision) [
  | inr (d, decided) ↦
      let st = counted l.state rule.id in
      rw (count_rule_decided rule l d decided) (record {
        counts = λ k. counted_put l.state rule.id k st refl;
        spends = λ k. ground (arith, fires_put l.state rule.id k st 0 (omega arith));
        stays = λ e h. h;
        chooses = λ e h h'. ground (arith, decided, h);
      })
  | inl open_still ↦ elim (Bool-cases (does_fire rule l)) [
    | inl now ↦
        let st : RuleState = record (counted l.state rule.id) {
          fires = fires_of l.state rule.id + 1;
        } in
        rw (count_rule_fires rule l open_still now) (record {
          counts = λ k. counted_put l.state rule.id k st refl;
          spends = λ k. ground (arith, open_still, fires_put l.state rule.id k st 1 refl);
          stays = λ e h. ground (arith, open_still, h);
          chooses = λ e h h'. (ground (arith, h'), now);
        })
    | inr not_now ↦
        let st = counted l.state rule.id in
        rw (count_rule_passes rule l open_still not_now) (record {
          counts = λ k. counted_put l.state rule.id k st refl;
          spends = λ k. ground (arith, open_still, fires_put l.state rule.id k st 0 (omega arith));
          stays = λ e h. ground (arith, open_still, h);
          chooses = λ e h h'. ground (arith, h');
        })
  ]
]
