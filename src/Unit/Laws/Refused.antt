-- ===== src/Unit/Laws/Refused.antt =====
-- Refusals of the pipeline of core/kernel/unit.py before the handler.
use vendorfake.Text.{mem_text, mem-keep}
use vendorfake.Json.{document, strs}
use vendorfake.Prelude.{
  String, true, not, some, List, [], ◌∷◌, keep, ◌⊎◌, inl, inr, arith, ◌≡◌, refl, ap, sym, subst,
  ◌∙◌, Bool, false, Option, none, if◌then◌else◌,
}
use vendorfake.Errors.{unit_error, forbidden_scope, Result, ok, err, Error}
use vendorfake.Action.{Action, and_then, and_then-ok, and_then-err}
use vendorfake.Chaos.Engine.{ChaosDecision}
use vendorfake.Unit.RequestFaults.{pre, post_auth}
use vendorfake.Unit.State.{UnitResponse, AuthResult, HandlerArgs, Endpoint, Run, Vendor}
use vendorfake.Unit.Stages.{
  gate, select_fault, note_decision, request_fault, authorize, checked_scopes, respond, proceed,
  faulted, run_vendor, run_internal, run_pipeline,
}
use vendorfake.Unit.Laws.CommitAfter.{select_fault-store, pair_eq}
use vendorfake.Unit.Laws.Staged.{authorize-same}

-- The arguments as the later stages see them when no fault is drawn.
abbrev pub unfaulted : HandlerArgs → HandlerArgs
unfaulted args = record args { fault = none }

-- What follows the authorization.
abbrev behind_auth : Vendor → Endpoint → HandlerArgs → Option AuthResult → Action Run UnitResponse
behind_auth x e args auth =
    and_then (request_fault x post_auth none) (λ b. respond x e (record args { auth = auth }) none)

proceed-refused :
    (x : Vendor) (e : Endpoint) (args : HandlerArgs) (r : Run) (raised : Error)
    → (authorize x e args r).0 ≡ err raised
    → proceed x e args none r ≡ (err raised, r)
unfolding proceed request_fault
proceed-refused x e args r raised refused =
    and_then-ok (request_fault x pre none)
      (λ b. and_then (authorize x e args) (behind_auth x e args)) r r tt refl
    ∙ and_then-err (authorize x e args) (behind_auth x e args) r r raised (
        pair_eq (authorize x e args) r (err raised) refused
        ∙ ap (λ t. (err raised, t)) (authorize-same x e args r))

faulted-refused :
    (x : Vendor) (e : Endpoint) (args : HandlerArgs) (r : Run) (raised : Error)
    → (authorize x e (unfaulted args) r).0 ≡ err raised
    → faulted x e args none r ≡ (err raised, r)
unfolding faulted note_decision
faulted-refused x e args r raised refused =
    and_then-ok (note_decision x none) (λ noted. proceed x e (unfaulted args) none) r r tt refl
    ∙ proceed-refused x e (unfaulted args) r raised refused

-- The scopes of a route that a credential lacks.
abbrev pub lacking : Endpoint → AuthResult → List String
lacking e auth = keep (λ scope. not (mem_text scope auth.scopes)) e.scopes

-- Why a route with a scheme is refused, and what is raised: its credential does not resolve, or it
-- resolves and lacks one of the route's scopes.
abbrev pub IsDenied : Vendor → Endpoint → HandlerArgs → String → Run → Error → Type 0
IsDenied x e args scheme r raised =
    (x.resolve args scheme r.hooks ≡ err raised)
    ⊎ ((auth : AuthResult) × (x.resolve args scheme r.hooks ≡ ok auth)
        × (scope : String) × (mem_text scope e.scopes ≡ true)
        × (mem_text scope auth.scopes ≡ false)
        × (raised
            ≡ unit_error forbidden_scope none (
                document
                  (("missing", strs (lacking e auth)) ∷ ("granted", strs auth.scopes) ∷ []))))

checked_scopes-lacking :
    (x : Vendor) (auth : AuthResult) (missing : List String) (scope : String)
    → mem_text scope missing ≡ true
    → checked_scopes x auth missing
      ≡ err (
          unit_error forbidden_scope none
            (document (("missing", strs missing) ∷ ("granted", strs auth.scopes) ∷ [])))
checked_scopes-lacking x auth [] scope h = cc
checked_scopes-lacking x auth (s ∷ ss) scope h = refl

authorize-IsDenied :
    (x : Vendor) (e : Endpoint) (args : HandlerArgs) (scheme : String) (r : Run) (raised : Error)
    → e.auth ≡ some scheme
    → IsDenied x e args scheme r raised
    → (authorize x e args r).0 ≡ err raised
unfolding authorize
authorize-IsDenied x e args scheme r raised guarded (inl refused) =
    rw (guarded, refused, authorize) refl
authorize-IsDenied x e args scheme r raised guarded
      (inr (auth, resolved, scope, asked, absent, is)) =
    let missing =
      mem-keep (λ scope. not (mem_text scope auth.scopes)) scope e.scopes
      ∙ ground (arith, asked, absent) in
    rw (guarded, resolved, authorize)
      (checked_scopes-lacking x auth (lacking e auth) scope missing ∙ ap err (sym is))

raised_by_authorize :
    (x : Vendor) (e : Endpoint) (args : HandlerArgs) (r r1 : Run) (raised : Error)
    → e.route.internal ≡ false
    → (gate e r).0 ≡ ok tt
    → select_fault x e args.req r ≡ (ok none, r1)
    → (authorize x e (unfaulted args) r1).0 ≡ err raised
    → (run_pipeline x e args r ≡ (err raised, r1)) × (r1.hooks.store ≡ r.hooks.store)
unfolding run_pipeline run_vendor gate
raised_by_authorize x e args r r1 raised vendors passed selected refused = (
  subst
      (λ (b : Bool).
        (if b then run_internal x e args r else run_vendor x e args r) ≡ (err raised, r1))
      (sym vendors)
      (and_then-ok (gate e)
          (λ opened. and_then (select_fault x e args.req) (λ decision. faulted x e args decision)) r
          r tt (pair_eq (gate e) r (ok tt) passed)
        ∙ and_then-ok (select_fault x e args.req) (λ decision. faulted x e args decision) r r1 none
            selected
        ∙ faulted-refused x e args r1 raised refused),
  ap (λ (p : Result (Option ChaosDecision) × Run). p.1.hooks.store) (sym selected)
      ∙ select_fault-store x e args.req r,
)

-- A vendor's route that is enabled and asks for a credential, with no fault drawn: if the credential
-- does not resolve, the request raises what the resolver raised, and if it lacks a scope of the
-- route, it raises forbidden_scope with the scopes that it lacks. No handler runs, and the store is
-- as it was.
pub refused_access_changes_nothing :
    (x : Vendor) (e : Endpoint) (args : HandlerArgs) (scheme : String) (r r1 : Run) (raised : Error)
    → e.route.internal ≡ false
    → (gate e r).0 ≡ ok tt
    → select_fault x e args.req r ≡ (ok none, r1)
    → e.auth ≡ some scheme
    → IsDenied x e (unfaulted args) scheme r1 raised
    → (run_pipeline x e args r ≡ (err raised, r1)) × (r1.hooks.store ≡ r.hooks.store)
refused_access_changes_nothing x e args scheme r r1 raised vendors passed selected guarded denied =
    raised_by_authorize x e args r r1 raised vendors passed selected
      (authorize-IsDenied x e (unfaulted args) scheme r1 raised guarded denied)
