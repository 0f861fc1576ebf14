-- ===== src/LoadTest/Token.antt =====
-- loadtest/token.go, and the two programs that sign a token with it: loadtest/cmd/gentoken/main.go and
-- `main` of loadtest/scenarios/user_flow.go. Reading and parsing the key and signing are parameters.
pub mod Accepted
use go_api_gateway.Prelude.{ℕ, ◌+◌, ◌*◌, ◌/◌, Option, none, some, List, [], ◌∷◌, Text, codes}
use go_api_gateway.Prelude.Dict.{Dict}
use go_api_gateway.Startup.{
  KeyErr, reading_key, no_pem_block, parsing_key, not_rsa, Outcome, failed, done, ◌>>=◌, or_else,
  KeyReader,
}
use go_api_gateway.LoadTest.{
  Stats, new_stats, Turn, run_users, Snapshot, snapshot, Printed, print_interval,
}

-- A value of the `jwt.MapClaims` that is signed: a string, a `[]string` or an int64.
pub data ClaimValue : Type 0 where
  text : Text → ClaimValue
  texts : List Text → ClaimValue
  number : ℕ → ClaimValue

-- `LoadPrivateKey`.
unfoldable pub load_private_key : {B P K : Type 0} → KeyReader B P K → Text → Outcome KeyErr K
load_private_key keys path = do
  data_ ← or_else reading_key (keys.read_file path)
  block ← or_else no_pem_block (keys.decode data_)
  private ← or_else parsing_key (keys.parse block)
  or_else not_rsa (keys.as_rsa private)

-- The claims, with the nanoseconds since 1970 at the call; they hold for an hour.
abbrev pub claims_for : ℕ → Text → List Text → Dict ClaimValue
claims_for now_ns subject roles =
    (codes "sub", text subject)
    ∷ (codes "roles", texts roles)
    ∷ (codes "exp", number ((now_ns + 3600 * 1000000000) / 1000000000))
    ∷ []

-- `SignToken`, with `sign` for `SignedString` by RS256.
unfoldable pub sign_token :
    {K : Type 0} → (K → Dict ClaimValue → Option Text) → ℕ → K → Text → List Text → Option Text
sign_token sign now_ns key subject roles = sign key (claims_for now_ns subject roles)

pub data ProgramErr : Type 0 where
  loading : KeyErr → ProgramErr
  signing : ProgramErr

abbrev pub lift_loading : {K : Type 0} → Outcome KeyErr K → Outcome ProgramErr K
lift_loading (failed e) = failed (loading e)
lift_loading (done k) = done k

module _ {B P K : Type 0} (keys : KeyReader B P K) (sign : K → Dict ClaimValue → Option Text)
    (now_ns : ℕ) where
  -- The key is loaded and a token for an admin is signed, or the program exits with 1.
  unfoldable pub token_for : (path subject : Text) → Outcome ProgramErr Text
  unfolding load_private_key sign_token
  token_for path subject = do
    key ← lift_loading (load_private_key keys path)
    or_else signing (sign_token sign now_ns key subject (codes "admin" ∷ []))

  -- `main` of gentoken: the token is what it prints.
  unfoldable pub gentoken : (path subject : Text) → Outcome ProgramErr Text
  unfolding token_for
  gentoken path subject = token_for path subject

  -- `main` of user_flow.go, with the users one after another and no report before the last.
  unfoldable pub user_flow :
      (List ℕ → List ℕ) → (gateway path : Text) → List (List Turn) → Outcome ProgramErr Printed
  unfolding token_for run_users snapshot print_interval
  user_flow sort gateway path users = do
    token ← token_for path (codes "550e8400-e29b-41d4-a716-446655440000")
    done (print_interval sort (snapshot (run_users gateway token users new_stats)).0)
