-- ===== src/Unit/Laws/Answers.antt =====
-- What `apply_response_fault` (core/chaos/faults.py) leaves of an answer.
use Prim.Native.String.{◌++◌ as text_append}
use vendorfake.Prelude.{
  ℕ, ◌/◌, String, ◌≡◌, refl, sym, ap, ◌∙◌, subst, true, false, Option, some, Option-cases,
  Bool-cases, inl, inr,
}
use vendorfake.Text.{text_eq, text_eq_iff}
use vendorfake.Dict
use vendorfake.Dict.{Dict}
use vendorfake.Dict.Laws.{get-put}
use vendorfake.Json.{ℤ, Value, str, arr, cons}
use vendorfake.Errors.{Result, ok, err, ◌>>=◌, >>=-eq-ok}
use vendorfake.Chaos.Faults.{at_response}
use vendorfake.Chaos.Engine.{ChaosDecision}
use vendorfake.Unit.RequestFaults.{has_phase, is_commit_fault, commit_mode}
use vendorfake.Paths.{size_of}
use vendorfake.Unit.Pointer.{AnswerContext, apply_ops}
use vendorfake.Unit.State.{UnitResponse}
use vendorfake.Unit.ResponseFaults.{
  stamp_mechanism, html_error_page, take_text, drop_last, malformed, malformed_mode, malformed_body,
  mutated, body_mutation, directive, corrupted, apply_response_fault,
}

-- The answer names the fault and its rule, and is delayed as before.
abbrev pub IsStamped : (String → String) → ChaosDecision → UnitResponse → UnitResponse → Type 0
IsStamped quote c res out =
    (Dict.get out.headers "vendorfake-fault" ≡ some c.fault)
    × (Dict.get out.headers "vendorfake-rule" ≡ some (quote c.rule_id))
    × (out.delay_ms ≡ res.delay_ms)

stamp_fault :
    (quote : String → String) (headers : Dict String) (fault rule : String)
    → Dict.get (stamp_mechanism quote headers fault rule) "vendorfake-fault" ≡ some fault
unfolding stamp_mechanism
stamp_fault quote headers fault rule =
    get-put (Dict.put headers "vendorfake-fault" fault) "vendorfake-rule" "vendorfake-fault"
      (quote rule)
    ∙ get-put headers "vendorfake-fault" "vendorfake-fault" fault

stamp_rule :
    (quote : String → String) (headers : Dict String) (fault rule : String)
    → Dict.get (stamp_mechanism quote headers fault rule) "vendorfake-rule" ≡ some (quote rule)
unfolding stamp_mechanism
stamp_rule quote headers fault rule =
    get-put (Dict.put headers "vendorfake-fault" fault) "vendorfake-rule" "vendorfake-rule"
      (quote rule)

abbrev AllStamped : (String → String) → ChaosDecision → UnitResponse → Result UnitResponse → Type 0
AllStamped quote c res (err e) = Unit
AllStamped quote c res (ok out) = IsStamped quote c res out

AllStamped->>= :
    {A : Type 0} (quote : String → String) (c : ChaosDecision) (res : UnitResponse)
    (first : Result A) (next : A → Result UnitResponse)
    → ((a : A) → AllStamped quote c res (next a))
    → AllStamped quote c res (first >>= next)
AllStamped->>= quote c res (err e) next h = tt
AllStamped->>= quote c res (ok a) next h = h a

not_commit_fault :
    (fault name : String)
    → is_commit_fault name ≡ true
    → is_commit_fault fault ≡ false
    → text_eq fault name ≡ false
not_commit_fault fault name commits intact = elim (Bool-cases (text_eq fault name)) [
  | inl same ↦ let one = ap is_commit_fault ((text_eq_iff fault name).0 same) in cc
  | inr other ↦ other
]

module _ (parse_float : String → Option ℤ) (x : AnswerContext) where
  malformed-Stamped :
      (c : ChaosDecision) (default : ℕ) (headers : Dict String) (body : String) (res : UnitResponse)
      → IsStamped x.quote c res (malformed parse_float x c default headers body res)
  malformed-Stamped c default headers body res = (
    stamp_fault x.quote headers c.fault c.rule_id,
    stamp_rule x.quote headers c.fault c.rule_id,
    refl,
  )

  malformed_mode-Stamped :
      (c : ChaosDecision) (res : UnitResponse) (mode : String)
      → AllStamped x.quote c res (malformed_mode parse_float x c res mode)
  unfolding malformed_mode
  malformed_mode-Stamped c res mode = elim (Bool-cases (text_eq mode "html")) [
    | inl html ↦ rw html (
        malformed-Stamped c 502 (Dict.put res.headers "content-type" "text/html") html_error_page
          res)
    | inr no_html ↦ elim (Bool-cases (text_eq mode "empty")) [
      | inl emptied ↦
          rw (no_html, emptied)
            (malformed-Stamped c res.status (Dict.put res.headers "content-type" "application/json")
              "" res)
      | inr no_empty ↦ elim (Bool-cases (text_eq mode "invalid_json")) [
        | inl invalid ↦
            rw (no_html, no_empty, invalid)
              (malformed-Stamped c res.status res.headers (text_append (drop_last res.body) ",")
                res)
        | inr no_invalid ↦ elim (Bool-cases (text_eq mode "truncate")) [
          | inl cut ↦
              rw (no_html, no_empty, no_invalid, cut)
                (malformed-Stamped c res.status res.headers
                  (take_text (size_of res.body / 2) res.body) res)
          | inr bad ↦ rw (no_html, no_empty, no_invalid, bad) tt
        ]
      ]
    ]
  ]

  malformed_body-Stamped :
      (c : ChaosDecision) (res : UnitResponse) (mode : Option Value)
      → AllStamped x.quote c res (malformed_body parse_float x c res mode)
  unfolding malformed_body
  malformed_body-Stamped c res (some (str mode)) = malformed_mode-Stamped c res mode
  malformed_body-Stamped c res mode = tt

  body_mutation-Stamped :
      (c : ChaosDecision) (res : UnitResponse) (ops : Option Value)
      → AllStamped x.quote c res (body_mutation parse_float x c res ops)
  unfolding body_mutation mutated
  body_mutation-Stamped c res (some (arr (cons op ops))) =
      elim (Option-cases (x.parse_json res.body)) [
        | inl bad ↦ rw (bad, body_mutation) tt
        | inr (body, read) ↦
            rw (read, body_mutation)
              (AllStamped->>= x.quote c res (apply_ops x body (cons op ops))
                (λ changed. ok (mutated parse_float x c res changed))
                (λ changed. (
                  stamp_fault x.quote res.headers c.fault c.rule_id,
                  stamp_rule x.quote res.headers c.fault c.rule_id,
                  refl,
                )))
      ]
  body_mutation-Stamped c res ops = tt

  directive-Stamped :
      (c : ChaosDecision) (res : UnitResponse)
      → IsStamped x.quote c res (directive parse_float x c res)
  unfolding directive
  directive-Stamped c res = (
    stamp_fault x.quote res.headers c.fault c.rule_id,
    stamp_rule x.quote res.headers c.fault c.rule_id,
    refl,
  )

  corrupted-Stamped :
      (c : ChaosDecision) (res : UnitResponse)
      → AllStamped x.quote c res (corrupted parse_float x c res)
  unfolding corrupted
  corrupted-Stamped c res = elim (Bool-cases (text_eq c.fault "malformed_body")) [
    | inl malformed ↦ rw malformed (malformed_body-Stamped c res (Dict.get c.params "mode"))
    | inr whole ↦ elim (Bool-cases (text_eq c.fault "body_mutation")) [
      | inl mutates ↦ rw (whole, mutates) (body_mutation-Stamped c res (Dict.get c.params "ops"))
      | inr directs ↦ rw (whole, directs) (directive-Stamped c res)
    ]
  ]

  -- An answer that a response-phase fault returns names the fault and, quoted, its rule in its
  -- headers, and owes the delay that it owed before.
  pub apply_response_fault-Stamped :
      (c : ChaosDecision) (res out : UnitResponse)
      → has_phase at_response c.fault ≡ true
      → apply_response_fault parse_float x c res ≡ ok out
      → IsStamped x.quote c res out
  unfolding apply_response_fault
  apply_response_fault-Stamped c res out response returned =
      let (mode, checked, ended) =
        >>=-eq-ok (commit_mode c) (λ mode. corrupted parse_float x c res)
          (rw response at returned) in
      subst (AllStamped x.quote c res) ended (corrupted-Stamped c res)

  directed :
      (c : ChaosDecision) (res : UnitResponse)
      → is_commit_fault c.fault ≡ false
      → ok (directive parse_float x c res) ≡ corrupted parse_float x c res
  unfolding is_commit_fault has_phase corrupted
  directed c res intact =
      rw
        (
          not_commit_fault c.fault "malformed_body" refl intact,
          not_commit_fault c.fault "body_mutation" refl intact,
          corrupted,
        )
        refl

  -- A fault that is not one of those that discard or corrupt the answer returns, if it returns, the
  -- status and the body that the handler answered.
  pub apply_response_fault_intact :
      (c : ChaosDecision) (res out : UnitResponse)
      → is_commit_fault c.fault ≡ false
      → apply_response_fault parse_float x c res ≡ ok out
      → (out.status ≡ res.status) × (out.body ≡ res.body)
  unfolding apply_response_fault
  apply_response_fault_intact c res out intact returned =
      elim (Bool-cases (has_phase at_response c.fault)) [
        | inr other ↦
            let unchanged = (rw other at returned) in
            let same : res ≡ out = cc in
            (ap (λ a. a.status) (sym same), ap (λ a. a.body) (sym same))
        | inl response ↦
            let (mode, checked, ended) =
              >>=-eq-ok (commit_mode c) (λ mode. corrupted parse_float x c res)
                (rw response at returned) in
            let kept = directed c res intact ∙ ended in
            let same : directive parse_float x c res ≡ out = cc in
            (ap (λ a. a.status) (sym same), ap (λ a. a.body) (sym same))
      ]
