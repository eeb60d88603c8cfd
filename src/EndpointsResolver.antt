-- ===== src/EndpointsResolver.antt =====
-- net_ip/endpoints_resolver.hpp: names and ports into endpoints. Names are lists of characters. The
-- resolver of the networking library is a parameter.
use chops.Prelude.{Bool, true, false, List, [], ◌∷◌, ◌++◌, ℕ, if◌then◌else◌}
use chops.NetIpError.{ErrorCode, no_error}
use chops.WeakPtr.{Outcome, returns, throws}
pub mod Overloads
mod Examples

-- The two bits of `ip::resolver_base::flags` that are used.
pub data ResolverFlag : Type 0 where
  passive address_configured : ResolverFlag

pub record Query : Type 0 where
  pub host : List ℕ
  pub service : List ℕ
  pub flags : List ResolverFlag

-- What the resolution of a query gives: a sequence of endpoints that is not empty, or an error.
pub data Answer (E : Type 0) : Type 0 where
  found : E → List E → Answer E
  failed : ErrorCode → Answer E

pub record Resolver (E : Type 0) : Type 0 where
  pub answer : Query → Answer E

-- `resolve` returns the endpoints, or throws; the completion handler of `async_resolve` is given the
-- error code and the endpoints.
abbrev pub resolved_or_thrown : {E : Type 0} → Answer E → Outcome (E × List E)
resolved_or_thrown (found e es) = returns (e, es)
resolved_or_thrown (failed err) = throws err

abbrev pub completed : {E : Type 0} → Answer E → ErrorCode × List E
completed (found e es) = (no_error, e ∷ es)
completed (failed err) = (err, [])

-- The asynchronous calls of `m_resolver`; `F` is the function object of the caller.
pub data ResolverCall (F : Type 0) : Type 0 where
  async_resolve : Query → F → ResolverCall F
  cancel_all : ResolverCall F

pub record EndpointsResolver (F : Type 0) : Type 0 where
  pub calls : List (ResolverCall F)

abbrev pub new_endpoints_resolver : {F : Type 0} → EndpointsResolver F
new_endpoints_resolver = record { calls = [] }

module _ {F : Type 0} where
  -- `make_endpoints` with a function object.
  unfoldable pub make_endpoints_async :
      EndpointsResolver F → Bool → List ℕ → List ℕ → F → EndpointsResolver F
  make_endpoints_async r local host_or_intf_name service_or_port func =
      if local
      then record r {
        calls =
            r.calls
            ++ async_resolve
                (record {
                  host = host_or_intf_name;
                  service = service_or_port;
                  flags = passive ∷ address_configured ∷ [];
                })
                func
              ∷ [];
      }
      else record r {
        calls =
            r.calls
            ++ async_resolve
                (record { host = host_or_intf_name; service = service_or_port; flags = [] }) func
              ∷ [];
      }

  unfoldable pub cancel : EndpointsResolver F → EndpointsResolver F
  cancel r = record r { calls = r.calls ++ cancel_all ∷ [] }

-- `make_endpoints` that returns the endpoints.
unfoldable pub make_endpoints :
    {E : Type 0} ⦃r : Resolver E⦄ → Bool → List ℕ → List ℕ → Outcome (E × List E)
make_endpoints ⦃r⦄ local host_or_intf_name service_or_port =
    if local
    then resolved_or_thrown (
        r.answer (record {
          host = host_or_intf_name;
          service = service_or_port;
          flags = passive ∷ address_configured ∷ [];
        }))
    else resolved_or_thrown
        (r.answer (record { host = host_or_intf_name; service = service_or_port; flags = [] }))
