-- ===== src/Unit/Laws/Recorded.antt =====
-- The request log behind `Unit.handle` (core/kernel/unit.py) and who may reach the control plane
-- (core/control/access.py).
use vendorfake.Prelude.{◌||◌, String, ◌≡◌, true, false, Option, none, some, List}
use vendorfake.Errors.{ok, err, method_not_allowed}
use vendorfake.Router.Defs.{
  Compiled, MatchOutcome, matched, method_not_allowed as other_method, no_route, find_route,
  is_control_path,
}
use vendorfake.Unit.Requests.{RequestRecord, record_request}
use vendorfake.Unit.Access.{control_access_error}
use vendorfake.Unit.State.{UnitRequest, UnitResponse, Endpoint, UnitState, Vendor}
use vendorfake.Unit.Handle.{is_internal}

-- The log of `u` with one more record, of this request and of the answer that goes out.
abbrev pub RecordsOne : UnitRequest → UnitState → UnitResponse × UnitState → Type 0
RecordsOne req u p =
    (entry : RequestRecord) × (p.1.requests ≡ record_request entry u.requests)
    × (entry.id ≡ req.id)
    × (entry.method ≡ req.method)
    × (entry.path ≡ req.path)
    × (entry.status ≡ p.0.status)

-- A request of the control plane's namespace, or of a route that is internal, leaves the log alone;
-- every other one leaves one record.
abbrev pub Recorded : UnitRequest → Option Endpoint → UnitState → UnitResponse × UnitState → Type 0
Recorded req e u p =
    ((is_internal e || is_control_path req.path) ≡ true → p.1.requests ≡ u.requests)
    × ((is_internal e || is_control_path req.path) ≡ false → RecordsOne req u p)

abbrev pub endpoint_of : Vendor → MatchOutcome → Option Endpoint
endpoint_of x (matched route params) = some (x.endpoint route)
endpoint_of x (other_method allowed) = none
endpoint_of x no_route = none

-- The endpoint of the route that a request reaches, if the token lets it in and a route matches.
pub reached : Vendor → Option String → List Compiled → UnitRequest → Option Endpoint
reached x token table req = elim (control_access_error req.method req.path req.headers token) [
  | some refused ↦ none
  | none ↦ elim (find_route x.unquote table req.method req.path) [
    | err e ↦ none
    | ok outcome ↦ endpoint_of x outcome
  ]
]
