-- ===== src/Auth.antt =====
-- internal/middleware/auth.go: bearer authentication and the check of roles. Parsing a token and
-- verifying its signature is the JWT library's, and a parameter.
pub mod Access
use go_api_gateway.Prelude.{
  ℕ, Bool, true, false, ◌||◌, Option, none, some, List, [], ◌∷◌, any, ite, if◌then◌else◌, Text,
  codes, text_eq,
}
use go_api_gateway.Prelude.Dict.{Dict, find}
use go_api_gateway.Strings.{cut_prefix}
use go_api_gateway.Http.{
  Header, header_get, Request, Claims, Action, Handler, json_error, error_message,
}

-- A JSON value as encoding/json decodes it into an `any`; `other` is what is neither a string nor
-- an array.
mutual
  pub data Value : Type 0 where
    string : Text → Value
    array : Values → Value
    other : Value

  pub data Values : Type 0 where
    nil : Values
    cons : Value → Values → Values

-- A token: its claims, where they are `MapClaims`.
pub record Token : Type 0 where
  pub claims : Option (Dict Value)

-- What the key function is told of a token that is not verified yet: its signing method.
pub record Unverified : Type 0 where
  pub is_rsa : Bool
  pub alg : Text

-- `jwt.ParseWithClaims`, over the key function and the valid methods.
abbrev pub JwtParser : Type 0 → Type 0
JwtParser K = (Unverified → Option K) → (valid_methods : List Text) → Text → Option Token

abbrev pub rsa_key : {K : Type 0} → K → Unverified → Option K
rsa_key public_key t = if t.is_rsa then some public_key else none

unfoldable pub parse_and_validate_token : {K : Type 0} → JwtParser K → K → Text → Option Token
parse_and_validate_token parse_with_claims public_key token_str =
    parse_with_claims (rsa_key public_key) (codes "RS256" ∷ []) token_str

pub data AuthErr : Type 0 where
  missing_sub missing_roles corrupted_roles no_claims : AuthErr

pub data Extracted : Type 0 where
  claims_of : Claims → Extracted
  error : AuthErr → Extracted

abbrev pub prepend : Text → Option (List Text) → Option (List Text)
prepend role none = none
prepend role (some roles) = some (role ∷ roles)

-- The loop over the raw roles.
unfoldable pub read_roles : Values → Option (List Text)
read_roles nil = some []
read_roles (cons (string role) vs) = prepend role (read_roles vs)
read_roles (cons _ vs) = none

abbrev pub with_roles : Text → Option (List Text) → Extracted
with_roles sub (some roles) = claims_of (record { subject = sub; roles = roles })
with_roles sub none = error corrupted_roles

abbrev pub extract_roles : Text → Option Value → Extracted
extract_roles sub (some (array vs)) = with_roles sub (read_roles vs)
extract_roles sub _ = error missing_roles

abbrev pub extract_sub : Option Value → Option Value → Extracted
extract_sub (some (string sub)) roles = extract_roles sub roles
extract_sub _ roles = error missing_sub

abbrev pub extract_from : Option (Dict Value) → Extracted
extract_from none = error no_claims
extract_from (some m) = extract_sub (find (codes "sub") m) (find (codes "roles") m)

unfoldable pub extract_claims : Token → Extracted
unfolding read_roles
extract_claims token = extract_from token.claims

-- `writeJSON` of one message.
abbrev pub refuse : {S : Type 0} → ℕ → Text → S → List Action × S
refuse status message s = (json_error status (error_message message), s)

-- `slices.Contains`.
abbrev pub contains : List Text → Text → Bool
contains xs want = any (λ x. ite (text_eq x want) true false) xs

module _ {S : Type 0} (next : Handler S) where
  abbrev pub with_claims : Request → S → Extracted → List Action × S
  with_claims r s (error e) = refuse 401 (codes "invalid token") s
  with_claims r s (claims_of c) = next (record r { claims = some c }) s

  abbrev pub with_token : Request → S → Option Token → List Action × S
  with_token r s none = refuse 401 (codes "invalid token") s
  with_token r s (some token) = with_claims r s (extract_claims token)

  abbrev pub with_bearer : (Text → Option Token) → Request → S → Option Text → List Action × S
  with_bearer parse r s none = refuse 401 (codes "missing token") s
  with_bearer parse r s (some raw) = with_token r s (parse raw)

  -- `JWTAuth`, where `parse` stands for `parseAndValidateToken` with the public key.
  unfoldable pub jwt_auth : (Text → Option Token) → Handler S
  unfolding cut_prefix header_get extract_claims
  jwt_auth parse r s =
      with_bearer parse r s
        (cut_prefix (header_get (codes "Authorization") r.header) (codes "Bearer "))

  abbrev pub with_identity : List Text → Request → S → Option Claims → List Action × S
  with_identity roles r s none = refuse 401 (codes "missing token") s
  with_identity roles r s (some c) =
      if any (contains c.roles) roles then next r s else refuse 403 (codes "forbidden") s

  unfoldable pub require_any_role : List Text → Handler S
  require_any_role roles r s = with_identity roles r s r.claims

module _ {S : Type 0} (next : Handler S) where
  -- The chain of a service with `auth` and required roles, as cmd/gateway/server.go sets it up.
  unfoldable pub protected : (Text → Option Token) → List Text → Handler S
  unfolding jwt_auth require_any_role
  protected parse roles = jwt_auth (require_any_role next roles) parse
