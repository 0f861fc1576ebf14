-- ===== src/Auth/Access.antt =====
-- Who gets past the middleware of internal/middleware/auth.go.
use go_api_gateway.Prelude.{
  ℕ, ◌≡◌, refl, ap, subst, false, sym, ◌∙◌, ◌↔◌, ◌⊎◌, inl, inr, true, Option, none, some, List, [],
  ◌∷◌, ◌++◌, arith, any, Text, codes, Bool-cases, Option-cases,
}
use go_api_gateway.Prelude.Dict.{Dict, find}
use go_api_gateway.Strings.{cut_prefix}
use go_api_gateway.Strings.Laws.{cut_prefix-append}
use go_api_gateway.Http.{header_get, Request, Claims, Action, Handler}
use go_api_gateway.Auth.{
  Value, Values, string, array, other, nil, cons, Token, AuthErr, Extracted, claims_of, error,
  prepend, read_roles, extract_claims, extract_from, extract_sub, with_roles, refuse, contains,
  jwt_auth, require_any_role, protected,
}

-- The JSON array of the strings.
abbrev pub values_of : List Text → Values
values_of [] = nil
values_of (x ∷ xs) = cons (string x) (values_of xs)

read_roles-values_of : (xs : List Text) → read_roles (values_of xs) ≡ some xs
unfolding read_roles
read_roles-values_of [] = refl
read_roles-values_of (x ∷ xs) = rw (read_roles-values_of xs) refl

abbrev roles_or_nil : Option (List Text) → List Text
roles_or_nil none = []
roles_or_nil (some xs) = xs

read_roles_sound : (vs : Values) (xs : List Text) → read_roles vs ≡ some xs → vs ≡ values_of xs
unfolding read_roles
read_roles_sound nil xs e = ap (λ o. values_of (roles_or_nil o)) e
read_roles_sound (cons (string x) vs) xs e = elim (Option-cases (read_roles vs)) [
  | inl fails ↦ absurd (ground (arith, fails))
  | inr (rest, reads) ↦
      ap (cons (string x)) (read_roles_sound vs rest reads)
      ∙ ap (λ o. values_of (roles_or_nil o)) (sym (ap (prepend x) reads) ∙ e)
]
read_roles_sound (cons (array ws) vs) xs e = cc
read_roles_sound (cons other vs) xs e = cc

cut_prefix_sound : (s p rest : Text) → cut_prefix s p ≡ some rest → s ≡ p ++ rest
unfolding cut_prefix
cut_prefix_sound s [] rest e = cc
cut_prefix_sound [] (c ∷ p) rest e = cc
cut_prefix_sound (x ∷ s) (c ∷ p) rest e = ground (arith, cut_prefix_sound s p rest)

-- What the claims of a token must hold for the request to carry `c`.
pub record Holds (token : Token) (c : Claims) : Type 0 where
  pub map_claims : Dict Value
  pub is_map : token.claims ≡ some map_claims
  pub sub : find (codes "sub") map_claims ≡ some (string c.subject)
  pub roles : find (codes "roles") map_claims ≡ some (array (values_of c.roles))

extract_roles_sound :
    (sub : Text) (vs : Values) (c : Claims)
    → with_roles sub (read_roles vs) ≡ claims_of c
    → (sub ≡ c.subject) × (vs ≡ values_of c.roles)
extract_roles_sound sub vs c e = elim (Option-cases (read_roles vs)) [
  | inl fails ↦ absurd (ground (arith, fails))
  | inr (rest, reads) ↦
      let same : claims_of (record { subject = sub; roles = rest }) ≡ claims_of c =
        sym (ap (with_roles sub) reads) ∙ e in
      (cc, read_roles_sound vs rest reads ∙ ap values_of (let q : rest ≡ c.roles = cc in q))
]

extract_sub_sound :
    (a b : Option Value) (c : Claims)
    → extract_sub a b ≡ claims_of c
    → (a ≡ some (string c.subject)) × (b ≡ some (array (values_of c.roles)))
extract_sub_sound none b c e = cc
extract_sub_sound (some (array ws)) b c e = cc
extract_sub_sound (some other) b c e = cc
extract_sub_sound (some (string sub)) none c e = cc
extract_sub_sound (some (string sub)) (some (string t)) c e = cc
extract_sub_sound (some (string sub)) (some other) c e = cc
extract_sub_sound (some (string sub)) (some (array vs)) c e =
    let (same, read) = extract_roles_sound sub vs c e in
    (ap (λ x. some (string x)) same, ap (λ x. some (array x)) read)

-- The claims of a token are extracted as `c` exactly if its `sub` is the string of `c` and its
-- `roles` is the array of the roles of `c`, all of them strings.
pub extract_claims_iff :
    (token : Token) (c : Claims) → (extract_claims token ≡ claims_of c) ↔ Holds token c
unfolding extract_claims
extract_claims_iff token c = (forth, back)
  where
    forth : extract_claims token ≡ claims_of c → Holds token c
    forth e = elim (Option-cases token.claims) [
      | inl missing ↦
          absurd (let q : extract_from none ≡ claims_of c = ap extract_from (sym missing) ∙ e in cc)
      | inr (m, is_map) ↦
          let (a, b) = extract_sub_sound _ _ c (sym (ap extract_from is_map) ∙ e) in
          record { map_claims = m; is_map = is_map; sub = a; roles = b }
    ]

    back : Holds token c → extract_claims token ≡ claims_of c
    back h = rw (h.is_map, h.sub, h.roles, read_roles-values_of c.roles) refl

Extracted-cases :
    (x : Extracted) → ((e : AuthErr) × (x ≡ error e)) ⊎ ((c : Claims) × (x ≡ claims_of c))
Extracted-cases (error e) = inl (e, refl)
Extracted-cases (claims_of c) = inr (c, refl)

-- The request bears a token that verifies and whose claims can be read.
pub record Authenticated (parse : Text → Option Token) (r : Request) : Type 0 where
  pub raw : Text
  pub bearer : header_get (codes "Authorization") r.header ≡ codes "Bearer " ++ raw
  pub token : Token
  pub verified : parse raw ≡ some token
  pub identity : Claims
  pub readable : Holds token identity

-- Its identity shares a role with `roles`, too.
pub record Admitted (parse : Text → Option Token) (roles : List Text) (r : Request) : Type 0 where
  pub who : Authenticated parse r
  pub shared : any (contains who.identity.roles) roles ≡ true

-- The request with the identity of its token in place of any that it came with.
abbrev pub identified : Request → Claims → Request
identified r c = record r { claims = some c }

-- A reply that refuses, with the state untouched.
abbrev pub IsRefused : {S : Type 0} → List Action × S → S → Type 0
IsRefused reply s =
    (status : ℕ) × (message : Text) × (reply ≡ refuse status message s)
    × ((status ≡ 401) ⊎ (status ≡ 403))

module _ {S : Type 0} (next : Handler S) (parse : Text → Option Token) where
  pub jwt_auth_passes :
      (r : Request) (s : S) (a : Authenticated parse r)
      → jwt_auth next parse r s ≡ next (identified r a.identity) s
  unfolding jwt_auth
  jwt_auth_passes r s a =
      let cuts : cut_prefix (header_get (codes "Authorization") r.header) (codes "Bearer ")
          ≡ some a.raw =
        ap (λ x. cut_prefix x (codes "Bearer ")) a.bearer
        ∙ cut_prefix-append (codes "Bearer ") a.raw in
      let read : extract_claims a.token ≡ claims_of a.identity =
        (extract_claims_iff a.token a.identity).1 a.readable in
      rw (cuts, a.verified, read) refl

  pub jwt_auth_cases :
      (r : Request) (s : S) → IsRefused (jwt_auth next parse r s) s ⊎ Authenticated parse r
  unfolding jwt_auth
  jwt_auth_cases r s =
      elim (Option-cases
        (cut_prefix (header_get (codes "Authorization") r.header) (codes "Bearer "))) [
          | inl missing ↦ inl (401, codes "missing token", rw missing refl, inl refl)
          | inr (raw, cuts) ↦ elim (Option-cases (parse raw)) [
            | inl invalid ↦ inl (401, codes "invalid token", rw (cuts, invalid) refl, inl refl)
            | inr (token, verified) ↦ elim (Extracted-cases (extract_claims token)) [
              | inl (why, fails) ↦
                  inl (401, codes "invalid token", rw (cuts, verified, fails) refl, inl refl)
              | inr (c, reads) ↦ inr (record {
                raw = raw;
                bearer = cut_prefix_sound _ (codes "Bearer ") raw cuts;
                token = token;
                verified = verified;
                identity = c;
                readable = (extract_claims_iff token c).0 reads;
              })
            ]
          ]
        ]

module _ {S : Type 0} (next : Handler S) (roles : List Text) where
  pub require_any_role_passes :
      (r : Request) (s : S) (c : Claims)
      → any (contains c.roles) roles ≡ true
      → require_any_role next roles (identified r c) s ≡ next (identified r c) s
  unfolding require_any_role
  require_any_role_passes r s c shared = rw shared refl

  pub require_any_role_refuses :
      (r : Request) (s : S) (c : Claims)
      → any (contains c.roles) roles ≡ false
      → IsRefused (require_any_role next roles (identified r c) s) s
  unfolding require_any_role
  require_any_role_refuses r s c foreign = (403, codes "forbidden", rw foreign refl, inr refl)

module _ {S : Type 0} (next : Handler S) (parse : Text → Option Token) (roles : List Text) where
  -- An admitted request reaches the handler behind the chain, with the identity of its token in
  -- place of any that it came with.
  pub protected_passes :
      (r : Request) (s : S) (a : Admitted parse roles r)
      → protected next parse roles r s ≡ next (identified r a.who.identity) s
  unfolding protected
  protected_passes r s a =
      jwt_auth_passes (require_any_role next roles) parse r s a.who
      ∙ require_any_role_passes next roles r s a.who.identity a.shared

  -- Every request is either admissible or refused with 401 or 403 and the state of the handler behind
  -- the chain untouched.
  pub protected_cases :
      (r : Request) (s : S) → IsRefused (protected next parse roles r s) s ⊎ Admitted parse roles r
  unfolding protected
  protected_cases r s = elim (jwt_auth_cases (require_any_role next roles) parse r s) [
    | inl refused ↦ inl refused
    | inr who ↦ elim (Bool-cases (any (contains who.identity.roles) roles)) [
      | inl shared ↦ inr (record { who = who; shared = shared })
      | inr foreign ↦ inl (
          subst (λ reply. IsRefused reply s)
            (sym (jwt_auth_passes (require_any_role next roles) parse r s who))
            (require_any_role_refuses next roles r s who.identity foreign))
    ]
  ]
