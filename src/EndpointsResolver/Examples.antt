-- ===== src/EndpointsResolver/Examples.antt =====
-- A resolver that knows one name, and a test of the two overloads.
use chops.Prelude.{ℕ, ◌≡◌, true, false, [], ◌∷◌, ◌==◌, if◌then◌else◌, List, length}
use chops.NetIpError.{ErrorCode, other, no_error}
use chops.EndpointsResolver.{make_endpoints, Resolver, found, failed, new_endpoints_resolver}
use chops.EndpointsResolver.Overloads.{Request, completions, request_all, request_all-synchronous}

abbrev host_not_found : ErrorCode
host_not_found = record { value = 1; category = other }

-- The endpoint of a name of three characters, on any interface or on all of them.
instance abbrev names : Resolver ℕ
names = record {
  answer =
      λ q. if length q.host == 3 then found (length q.flags) (90 ∷ []) else failed host_not_found;
}

abbrev two_requests : List (Request ℕ)
two_requests =
    record { local = true; host_or_intf_name = 1 ∷ 2 ∷ 3 ∷ []; service_or_port = []; func = 7 }
    ∷ record { local = false; host_or_intf_name = 1 ∷ []; service_or_port = []; func = 8 }
    ∷ []

request_all-synchronous_example :
    completions {E = ℕ} (request_all new_endpoints_resolver two_requests).calls
    ≡ (7, (no_error, 2 ∷ 90 ∷ [])) ∷ (8, (host_not_found, [])) ∷ []
unfolding make_endpoints
request_all-synchronous_example = request_all-synchronous new_endpoints_resolver two_requests
