-- ===== src/EndpointsResolver/Overloads.antt =====
-- The two overloads of `make_endpoints` of net_ip/endpoints_resolver.hpp.
use chops.Prelude.{
  ◌≡◌, refl, sym, ap, ◌∙◌, Bool, true, false, List, [], ◌∷◌, ◌++◌, ℕ, append_assoc, append-nil,
}
use chops.NetIpError.{ErrorCode}
use chops.WeakPtr.{Outcome, returns, throws}
use chops.EndpointsResolver.{
  Query, passive, address_configured, Answer, found, failed, Resolver, ResolverCall, async_resolve,
  cancel_all, EndpointsResolver, make_endpoints_async, make_endpoints, completed,
  resolved_or_thrown,
}
use chops.NetIpError.{no_error}

-- A call of `make_endpoints`.
pub record Request (F : Type 0) : Type 0 where
  pub local : Bool
  pub host_or_intf_name : List ℕ
  pub service_or_port : List ℕ
  pub func : F

-- What a result that is returned or thrown is for a completion handler.
abbrev pub as_completion : {E : Type 0} → Outcome (E × List E) → ErrorCode × List E
as_completion (returns (e, es)) = (no_error, e ∷ es)
as_completion (throws err) = (err, [])

as_completion-resolved_or_thrown :
    {E : Type 0} (a : Answer E) → completed a ≡ as_completion (resolved_or_thrown a)
as_completion-resolved_or_thrown (found e es) = refl
as_completion-resolved_or_thrown (failed err) = refl

module _ {E F : Type 0} ⦃r : Resolver E⦄ where
  -- The completions of asynchronous calls that are not cancelled: the function objects, and what
  -- they are called with.
  abbrev pub completions : List (ResolverCall F) → List (F × (ErrorCode × List E))
  completions [] = []
  completions (async_resolve q func ∷ cs) = (func, completed (r.answer q)) ∷ completions cs
  completions (cancel_all ∷ cs) = completions cs

  abbrev pub synchronous : List (Request F) → List (F × (ErrorCode × List E))
  synchronous [] = []
  synchronous (q ∷ qs) =
      (q.func, as_completion (make_endpoints q.local q.host_or_intf_name q.service_or_port))
      ∷ synchronous qs

  completions-append :
      (xs ys : List (ResolverCall F)) → completions (xs ++ ys) ≡ completions xs ++ completions ys
  completions-append [] ys = refl
  completions-append (async_resolve q func ∷ xs) ys =
      ap (λ l. (func, completed (r.answer q)) ∷ l) (completions-append xs ys)
  completions-append (cancel_all ∷ xs) ys = completions-append xs ys

module _ {F : Type 0} where
  abbrev pub request_all : EndpointsResolver F → List (Request F) → EndpointsResolver F
  request_all er [] = er
  request_all er (q ∷ qs) =
      request_all (make_endpoints_async er q.local q.host_or_intf_name q.service_or_port q.func) qs

module _ {E F : Type 0} ⦃r : Resolver E⦄ where
  completions-make_endpoints_async :
      (er : EndpointsResolver F) (local : Bool) (host service : List ℕ) (func : F)
      → completions {E = E} (make_endpoints_async er local host service func).calls
        ≡ completions {E = E} er.calls
          ++ (func, as_completion (make_endpoints local host service)) ∷ []
  unfolding make_endpoints_async make_endpoints
  completions-make_endpoints_async er true host service func =
      let q : Query = record {
        host = host;
        service = service;
        flags = passive ∷ address_configured ∷ [];
      } in
      completions-append {E = E} er.calls (async_resolve q func ∷ [])
      ∙ ap (λ x. completions er.calls ++ (func, x) ∷ [])
          (as_completion-resolved_or_thrown (r.answer q))
  completions-make_endpoints_async er false host service func =
      let q : Query = record { host = host; service = service; flags = [] } in
      completions-append {E = E} er.calls (async_resolve q func ∷ [])
      ∙ ap (λ x. completions er.calls ++ (func, x) ∷ [])
          (as_completion-resolved_or_thrown (r.answer q))

  -- However many calls of `make_endpoints` with function objects are made, and none of them is
  -- cancelled: each function object is called with the error or the endpoints that `make_endpoints`
  -- without one throws or returns for the same arguments. The completions are listed in the order of
  -- the calls.
  pub request_all-synchronous :
      (er : EndpointsResolver F) (qs : List (Request F))
      → completions {E = E} (request_all er qs).calls
        ≡ completions {E = E} er.calls ++ synchronous qs
  request_all-synchronous er [] = sym (append-nil (completions {E = E} er.calls))
  request_all-synchronous er (q ∷ qs) =
      request_all-synchronous
        (make_endpoints_async er q.local q.host_or_intf_name q.service_or_port q.func) qs
      ∙ ap (λ l. l ++ synchronous qs)
          (completions-make_endpoints_async er q.local q.host_or_intf_name q.service_or_port q.func)
      ∙ append_assoc (completions {E = E} er.calls) _ (synchronous qs)
