-- ===== src/LoadTest/Token/Accepted.antt =====
-- That internal/middleware/auth.go takes the tokens of loadtest/token.go as loadtest/scenarios/user_flow.go
-- sends them.
use go_api_gateway.Prelude.{
  ℕ, ◌≡◌, ◌≢◌, refl, true, ap, ◌∙◌, Option, some, List, [], ◌∷◌, ◌++◌, Text, codes, text_eq, Any,
  here,
}
use go_api_gateway.Prelude.Dict.{Dict, find, find-put_self}
use go_api_gateway.Http.{
  Header, Request, Handler, header_get, header_set, canonical, all_token, canonical_from,
  first_value,
}
use go_api_gateway.Auth.{
  Value, string, array, other, Token, Unverified, JwtParser, rsa_key, parse_and_validate_token,
  jwt_auth,
}
use go_api_gateway.Auth.Access.{values_of, identified, jwt_auth_passes}
use go_api_gateway.LoadTest.{Call, prepare, set_unless_empty}
use go_api_gateway.LoadTest.Token.{ClaimValue, text, texts, number, claims_for, sign_token}

-- A claim as the parser reads it back from JSON.
abbrev pub read_back : ClaimValue → Value
read_back (text t) = string t
read_back (texts ts) = array (values_of ts)
read_back (number n) = other

abbrev pub read_all : Dict ClaimValue → Dict Value
read_all [] = []
read_all ((k, v) ∷ m) = (k, read_back v) ∷ read_all m

header_get-set_unless_empty :
    (t v : Text) (h : Header)
    → t ≢ []
    → header_get (codes "Authorization") (set_unless_empty t (codes "Authorization") v h) ≡ v
unfolding header_get header_set canonical all_token canonical_from
header_get-set_unless_empty [] v h some_ = absurd (some_ refl)
header_get-set_unless_empty (c ∷ t) v h some_ =
    ap first_value (find-put_self (codes "Authorization") (v ∷ []) h)

bearer-sent :
    (call : Call)
    → call.token ≢ []
    → header_get (codes "Authorization") (prepare call).header ≡ codes "Bearer " ++ call.token
unfolding prepare
bearer-sent call some_ = header_get-set_unless_empty call.token _ _ some_

-- The token with the claims as the parser gives it.
abbrev pub parsed : Dict ClaimValue → Token
parsed m = record { claims = some (read_all m) }

-- The parser takes the claims `m` that are signed with `key` by RS256, if the key function gives it
-- `public` for that method and the method is one of the valid ones; and it reads them back from JSON.
abbrev pub Verifies :
    {K P : Type 0}
    → (K → Dict ClaimValue → Option Text)
    → JwtParser P
    → K
    → P
    → Dict ClaimValue
    → Type 0
Verifies {P = P} sign parse key public m =
    (key_func : Unverified → Option P) (methods : List Text) (raw : Text)
    → sign key m ≡ some raw
    → key_func (record { is_rsa = true; alg = codes "RS256" }) ≡ some public
    → Any (λ method. method ≡ codes "RS256") methods
    → parse key_func methods raw ≡ some (parsed m)

module _ {K P : Type 0} (sign : K → Dict ClaimValue → Option Text) (parse : JwtParser P) (key : K)
    (public : P) {S : Type 0} (next : Handler S) where
  -- Where the library's parser takes the claims of `SignToken` signed with the private key by RS256 and
  -- gives them back, asked with the public key and that method: behind JWTAuth with the public key, a request
  -- with the `Authorization` header of a call that the load test makes with a token of `SignToken`
  -- goes on with the subject and the roles that were signed. The token is not empty.
  pub sign_token-jwt_auth :
      (now_ns : ℕ) (subject : Text) (roles : List Text) (call : Call) (r : Request) (s : S)
      → Verifies sign parse key public (claims_for now_ns subject roles)
      → sign_token sign now_ns key subject roles ≡ some call.token
      → call.token ≢ []
      → header_get (codes "Authorization") r.header
        ≡ header_get (codes "Authorization") (prepare call).header
      → jwt_auth next (parse_and_validate_token parse public) r s
        ≡ next (identified r (record { subject = subject; roles = roles })) s
  unfolding sign_token parse_and_validate_token find text_eq
  sign_token-jwt_auth now_ns subject roles call r s verifies signed some_ sent =
      let claims = claims_for now_ns subject roles in
      jwt_auth_passes next (parse_and_validate_token parse public) r s (record {
        raw = call.token;
        bearer = sent ∙ bearer-sent call some_;
        token = parsed claims;
        verified =
            verifies (rsa_key public) (codes "RS256" ∷ []) call.token signed refl (here refl);
        identity = record { subject = subject; roles = roles };
        readable = record { map_claims = read_all claims; is_map = refl; sub = refl; roles = refl };
      })
