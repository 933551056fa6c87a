-- ===== src/Chaos/Evaluate.antt =====
-- `ChaosEngine.evaluate`, `_matches` and `_should_fire` of core/chaos/engine.py.
use Prim.Native.Char.{code}
use vendorfake.Prelude.{
  ℕ, ◌+◌, ◌-◌, ◌%◌, String, Bool, true, false, ◌&&◌, ◌||◌, Option, none, some, List, [], ◌∷◌, any,
  ltb, leb, ◌==◌, if◌then◌else◌,
}
use vendorfake.Text.{text_eq}
use vendorfake.Dict
use vendorfake.Dict.{Dict}
use vendorfake.Json.{Value}
use vendorfake.Ring.{push}
use vendorfake.Chaos.Glob.{glob_match}
use vendorfake.Chaos.Rules.{ChaosScope, request, webhook, ChaosMatch, ChaosWhen, ChaosRule}
use vendorfake.Chaos.Engine.{
  ChaosSubject, label, ChaosDecision, event_of, RuleState, fresh, Rng, next, ChaosEngine,
  chaos_history_capacity,
}

abbrev pub upper_code : ℕ → ℕ
upper_code c = if leb b'a' c && leb c b'z' then c - 32 else c

abbrev pub lower_code : ℕ → ℕ
lower_code c = if leb b'A' c && leb c b'Z' then c + 32 else c

-- `a.upper() == b.upper()`, for methods, which are ASCII.
unfoldable pub same_upper : String → String → Bool
same_upper String.[] String.[] = true
same_upper (String.◌∷◌ c s) (String.◌∷◌ d t) =
    upper_code (code c) == upper_code (code d) && same_upper s t
same_upper _ _ = false

-- `name.lower() == key`, for header names, which are ASCII.
unfoldable pub lower_is : String → String → Bool
lower_is String.[] String.[] = true
lower_is (String.◌∷◌ c s) (String.◌∷◌ d t) = lower_code (code c) == code d && lower_is s t
lower_is _ _ = false

-- `headers.get(name.lower())`
unfoldable pub get_header : Dict String → String → Option String
unfolding lower_is
get_header [] name = none
get_header ((key, value) ∷ rest) name =
    if lower_is name key then some value else get_header rest name

unfoldable pub is_prefix : String → String → Bool
is_prefix String.[] t = true
is_prefix (String.◌∷◌ c s) String.[] = false
is_prefix (String.◌∷◌ c s) (String.◌∷◌ d t) = code c == code d && is_prefix s t

-- `part in text`
unfoldable pub contains : String → String → Bool
unfolding is_prefix
contains part String.[] = is_prefix part ""
contains part (String.◌∷◌ c t) = is_prefix part (String.◌∷◌ c t) || contains part t

-- A condition that is absent or empty is no veto.
abbrev pub unless_empty : Option String → (String → Bool) → Bool
unless_empty none test = true
unless_empty (some t) test = if text_eq t "" then true else test t

-- `value is not None and glob_match(pattern, value)`
abbrev pub glob_option : Option String → String → Bool
glob_option none pattern = false
glob_option (some value) pattern = glob_match pattern value

abbrev pub or_empty : Option String → String
or_empty none = ""
or_empty (some t) = t

abbrev pub equals : Option String → String → Bool
equals none t = false
equals (some s) t = text_eq t s

-- Every header that the rule names has the value that it names.
unfoldable pub headers_match : Dict String → Dict String → Bool
unfolding get_header
headers_match headers [] = true
headers_match headers ((name, value) ∷ rest) =
    equals (get_header headers name) value && headers_match headers rest

abbrev pub header_condition : Dict String → Option (Dict String) → Bool
header_condition headers none = true
header_condition headers (some wanted) = headers_match headers wanted

-- `ChaosEngine._matches`
unfoldable pub criteria_match : ChaosMatch → ChaosSubject → Bool
criteria_match c s =
    unless_empty c.route (glob_option s.route_key)
    && unless_empty c.path (glob_option s.path)
    && unless_empty c.method (λ m. same_upper m (or_empty s.method))
    && unless_empty c.capability (equals s.capability)
    && unless_empty c.event_type (glob_option s.event_type)
    && unless_empty c.body_contains (λ part. contains part (or_empty s.body_text))
    && header_condition s.headers c.header

unfoldable pub rule_matches : ChaosRule → ChaosSubject → Bool
unfolding criteria_match
rule_matches rule s = elim rule.matching [ none ↦ true | some c ↦ criteria_match c s ]

abbrev pub same_scope : ChaosScope → ChaosScope → Bool
same_scope request request = true
same_scope webhook webhook = true
same_scope _ _ = false

-- The two tests that skip a rule in the loop of `evaluate`.
unfoldable pub applies : ChaosRule → ChaosSubject → Bool
applies rule s = same_scope rule.scope s.scope && rule_matches rule s

abbrev pub mem_nat : ℕ → List ℕ → Bool
mem_nat n = any (λ m. m == n)

abbrev pub times_allows : Option ℕ → ℕ → Bool
times_allows none fires = true
times_allows (some n) fires = ltb fires n

-- An empty `nth` is no condition.
abbrev pub nth_allows : Option (List ℕ) → ℕ → Bool
nth_allows none matches = true
nth_allows (some []) matches = true
nth_allows (some (n ∷ ns)) matches = mem_nat matches (n ∷ ns)

abbrev pub after_allows : Option ℕ → ℕ → Bool
after_allows none matches = true
after_allows (some n) matches = ltb n matches

abbrev pub every_allows : Option ℕ → ℕ → Bool
every_allows none matches = true
every_allows (some n) matches = matches % n == 0

-- The conditions of `_should_fire` that draw nothing.
unfoldable pub counters_allow : ChaosWhen → RuleState → Bool
counters_allow w st =
    times_allows w.times st.fires
    && nth_allows w.nth st.matches
    && after_allows w.after st.matches
    && every_allows w.every st.matches

-- `self._rng.next() >= conditions.probability` refuses.
unfoldable pub draw : Option ℕ → Rng → Bool × Rng
unfolding next
draw none rng = (true, rng)
draw (some p) rng = let (n, rng') = next rng in (ltb n p, rng')

-- `ChaosEngine._should_fire`
unfoldable pub should_fire : ChaosRule → RuleState → Rng → Bool × Rng
should_fire rule st rng = elim rule.when [
  | none ↦ (true, rng)
  | some w ↦ if counters_allow w st then draw w.probability rng else (false, rng)
]

-- What the loop of `evaluate` changes.
pub record Loop : Type 0 where
  pub state : Dict RuleState
  pub rng : Rng
  pub decision : Option ChaosDecision

abbrev pub params_of : Option (Dict Value) → Dict Value
params_of none = []
params_of (some d) = d

-- `self._state.setdefault(rule.id, _RuleState())`
unfoldable pub state_of : Dict RuleState → String → RuleState
state_of d id = elim (Dict.get d id) [ none ↦ fresh | some s ↦ s ]

abbrev pub decide : ChaosRule → RuleState → ChaosDecision
decide rule st = record {
  rule_id = rule.id;
  fault = rule.fault;
  params = params_of rule.params;
  occurrence = st.matches;
}

-- A rule that applies and finds no decision yet: `st` is its state with this match counted.
unfoldable pub try_rule : ChaosRule → RuleState → Loop → Loop
try_rule rule st l =
    let (fires, rng') = should_fire rule st l.rng in
    if fires
    then record {
      state = Dict.put l.state rule.id (record st { fires = st.fires + 1 });
      rng = rng';
      decision = some (decide rule st);
    }
    else record { state = Dict.put l.state rule.id st; rng = rng'; decision = none }

-- A rule that applies: its matches are counted whether or not it may still fire.
unfoldable pub count_rule : ChaosRule → Loop → Loop
unfolding try_rule
count_rule rule l =
    let old = state_of l.state rule.id in
    let st = record old { matches = old.matches + 1 } in
    elim l.decision [
      | none ↦ try_rule rule st l
      | some d ↦ record l { state = Dict.put l.state rule.id st }
    ]

-- The loop of `evaluate`.
unfoldable pub visit : ChaosSubject → List ChaosRule → Loop → Loop
unfolding count_rule
visit s [] l = l
visit s (rule ∷ rules) l = visit s rules (if applies rule s then count_rule rule l else l)

abbrev pub record_decision : ChaosSubject → Option ChaosDecision → ChaosEngine → ChaosEngine
record_decision s none e = e
record_decision s (some d) e = record e {
  history = push chaos_history_capacity e.history (event_of d e.now_iso (label s));
}

-- `ChaosEngine.evaluate`
unfoldable pub evaluate : ChaosSubject → ChaosEngine → Option ChaosDecision × ChaosEngine
unfolding visit
evaluate s e =
    if e.enabled
    then (let l = visit s e.rules (record { state = e.state; rng = e.rng; decision = none }) in
        (l.decision, record_decision s l.decision (record e { state = l.state; rng = l.rng })))
    else (none, e)
