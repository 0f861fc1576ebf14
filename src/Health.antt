-- ===== src/Health.antt =====
-- internal/health/checker.go: which upstreams answered their last probe. A probe is the request that
-- `check` makes; what it came to is passed in. The `sync.Map` is a dictionary.
pub mod Passes
use go_api_gateway.Prelude.{
  ℕ, Bool, true, false, Option, none, some, List, [], ◌∷◌, any, ◌==◌, Text, ℤ,
}
use go_api_gateway.Prelude.Dict.{Dict, find, put}

pub record Checker : Type 0 where
  pub urls : List Text
  pub status : Dict Bool
  pub interval : ℤ
  pub path : Text

unfoldable pub new_checker : List Text → ℤ → Text → Checker
new_checker urls interval path = record {
  urls = urls;
  status = [];
  interval = interval;
  path = path;
}

-- What `http.NewRequestWithContext` and `client.Do` came to.
pub data Probe : Type 0 where
  bad_request : Probe
  no_response : Probe
  answered : (status : ℕ) → Probe

abbrev pub is_up : Probe → Bool
is_up bad_request = false
is_up no_response = false
is_up (answered status) = status == 200

-- `check` for one URL.
unfoldable pub check : Checker → Text → Probe → Checker
check c url p = record c { status = put url (is_up p) c.status }

unfoldable pub is_healthy : Checker → Text → Bool
is_healthy c url = elim (find url c.status) [ none ↦ false | some b ↦ b ]

-- `checkAll`: a goroutine for each URL, in the order in which they store their results.
unfoldable pub check_all : Checker → List (Text × Probe) → Checker
check_all c [] = c
check_all c ((url, p) ∷ done) = check_all (check c url p) done

-- `Probe`: true for a nil error.
unfoldable pub probe : Checker → List (Text × Probe) → Checker × Bool
probe c done = let c' = check_all c done in (c', any (is_healthy c') c'.urls)

-- `Start`: its first pass, and one for each tick until the context is done.
unfoldable pub start : Checker → List (List (Text × Probe)) → Checker
unfolding check_all
start c [] = c
start c (pass ∷ passes) = start (check_all c pass) passes
