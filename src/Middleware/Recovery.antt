-- ===== src/Middleware/Recovery.antt =====
-- What a client gets after a panic that internal/middleware/recoverer.go recovers.
use go_api_gateway.Prelude.{
  ◌≡◌, refl, Bool, true, false, none, some, List, [], ◌∷◌, ◌++◌, if◌then◌else◌, Text, codes, ◌⊎◌,
  inl, inr, Option-cases, ap, sym, ◌∙◌,
}
use mathlib.Core.List.{append-nil, append_assoc}
use go_api_gateway.Http.{
  Request, Action, set_header, add_header, del_header, write_header, write, status_of, body_of,
  json_object, error_message,
}
use go_api_gateway.Middleware.{Panicky, recoverer, server_error}

-- The handler has sent the head of its response.
abbrev pub sent_head : List Action → Bool
sent_head [] = false
sent_head (write_header code ∷ actions) = true
sent_head (write b ∷ actions) = true
sent_head (set_header name v ∷ actions) = sent_head actions
sent_head (add_header name v ∷ actions) = sent_head actions
sent_head (del_header name ∷ actions) = sent_head actions

pub status-append :
    (xs ys : List Action)
    → status_of (xs ++ ys) ≡ (if sent_head xs then status_of xs else status_of ys)
status-append [] ys = refl
status-append (write_header code ∷ xs) ys = refl
status-append (write b ∷ xs) ys = refl
status-append (set_header name v ∷ xs) ys = status-append xs ys
status-append (add_header name v ∷ xs) ys = status-append xs ys
status-append (del_header name ∷ xs) ys = status-append xs ys

pub body-append : (xs ys : List Action) → body_of (xs ++ ys) ≡ body_of xs ++ body_of ys
body-append [] ys = refl
body-append (write_header code ∷ xs) ys = body-append xs ys
body-append (write b ∷ xs) ys =
    ap (λ x. b ++ x) (body-append xs ys) ∙ sym (append_assoc b (body_of xs) (body_of ys))
body-append (set_header name v ∷ xs) ys = body-append xs ys
body-append (add_header name v ∷ xs) ys = body-append xs ys
body-append (del_header name ∷ xs) ys = body-append xs ys

abbrev pub error_body : Text
error_body = json_object (error_message (codes "internal server error"))

-- Nothing panics through `Recoverer`. If the handler returns, its calls and its state are as they
-- were. If it panics before the head of the response is out, the client gets a 500 with the JSON error
-- behind what was written, which is nothing; if it panics after, the client gets the status of the
-- handler and the JSON error at the end of its body, as if the response were whole.
pub recoverer_lem :
    {S : Type 0} (next : Panicky S) (r : Request) (s : S)
    → ((recoverer next r s).0.panic ≡ none)
      × ((recoverer next r s).1 ≡ (next r s).1)
      × (((next r s).0.panic ≡ none) × ((recoverer next r s).0.actions ≡ (next r s).0.actions)
          ⊎ ((v : Text) × ((next r s).0.panic ≡ some v)
              × (status_of (recoverer next r s).0.actions ≡ (
                  if sent_head (next r s).0.actions then status_of (next r s).0.actions else 500))
              × (body_of (recoverer next r s).0.actions
                  ≡ body_of (next r s).0.actions ++ error_body)))
unfolding recoverer
recoverer_lem next r s = elim (Option-cases (next r s).0.panic) [
  | inl calm ↦ rw calm (refl, refl, inl (refl, refl))
  | inr (v, panics) ↦ rw panics (
    refl,
    refl,
    inr (
      v,
      refl,
      status-append (next r s).0.actions server_error,
      body-append (next r s).0.actions server_error
          ∙ ap (λ x. body_of (next r s).0.actions ++ x) (append-nil error_body),
    ),
  )
]
