-- ===== src/ResponseCache/Copies.antt =====
-- What stands in Vary of a response that internal/middleware/cache.go captures.
use go_api_gateway.Prelude.{
  ◌≡◌, refl, ap, ◌∙◌, ◌≢◌, none, some, List, [], ◌∷◌, ◌++◌, Text, codes, text_eq, All, All-append,
  if_pos, if_neg, sym, subst,
}
use mathlib.Core.List.{append_assoc}
use go_api_gateway.Prelude.Dict.{find, find-put_self, find-put_ne}
use go_api_gateway.Http.{
  Header, Action, set_header, add_header, del_header, write_header, write, header_add, canonical,
  add_values, add_all,
}
use go_api_gateway.Http.Vary.{
  LeavesVary, VaryStarts, IsFine, header_add-VaryStarts, header_set-VaryStarts,
  header_del-VaryStarts,
}
use go_api_gateway.ResponseCache.{Captured, capture, capture_one}

module _ (first : Text) where
  capture_one-VaryStarts :
      (cw : Captured) (a : Action)
      → LeavesVary a
      → VaryStarts first cw.header
      → VaryStarts first (capture_one cw a).header
  unfolding capture_one
  capture_one-VaryStarts cw (set_header name v) other starts =
      header_set-VaryStarts first name v cw.header other starts
  capture_one-VaryStarts cw (add_header name v) leaves starts =
      header_add-VaryStarts first name v cw.header starts
  capture_one-VaryStarts cw (del_header name) other starts =
      header_del-VaryStarts first name cw.header other starts
  capture_one-VaryStarts cw (write_header code) leaves starts = starts
  capture_one-VaryStarts cw (write b) leaves starts = starts

  pub capture-VaryStarts :
      (cw : Captured) (actions : List Action)
      → All LeavesVary actions
      → VaryStarts first cw.header
      → VaryStarts first (capture cw actions).header
  unfolding capture
  capture-VaryStarts cw [] leaves starts = starts
  capture-VaryStarts cw (a ∷ actions) (leaf, leaves) starts =
      capture-VaryStarts (capture_one cw a) actions leaves (capture_one-VaryStarts cw a leaf starts)

pub capture-append :
    (cw : Captured) (xs ys : List Action) → capture cw (xs ++ ys) ≡ capture (capture cw xs) ys
unfolding capture
capture-append cw [] ys = refl
capture-append cw (x ∷ xs) ys = capture-append (capture_one cw x) xs ys

add_values-LeavesVary : (k : Text) (vs : List Text) → All LeavesVary (add_values k vs)
add_values-LeavesVary k [] = tt
add_values-LeavesVary k (v ∷ vs) = (tt, add_values-LeavesVary k vs)

add_all-LeavesVary : (h : Header) → All LeavesVary (add_all h)
unfolding add_all
add_all-LeavesVary [] = tt
add_all-LeavesVary ((k, vs) ∷ h) =
    All-append LeavesVary (add_values k vs) (add_all h) (add_values-LeavesVary k vs)
      (add_all-LeavesVary h)

-- Nothing in Vary yet.
abbrev NoVary : Captured → Type 0
NoVary cw = find (codes "Vary") cw.header ≡ none

add_values-NoVary :
    (cw : Captured) (k : Text) (vs : List Text)
    → canonical k ≢ codes "Vary"
    → NoVary cw
    → NoVary (capture cw (add_values k vs))
unfolding capture capture_one header_add
add_values-NoVary cw k [] other none_ = none_
add_values-NoVary cw k (v ∷ vs) other none_ =
    add_values-NoVary (capture_one cw (add_header k v)) k vs other
      (find-put_ne (canonical k) (codes "Vary") _ cw.header other ∙ none_)

module _ (first : Text) where
  first_value-VaryStarts :
      (cw : Captured) (k : Text)
      → k ≡ codes "Vary"
      → canonical k ≡ k
      → NoVary cw
      → VaryStarts first (capture_one cw (add_header k first)).header
  unfolding capture_one header_add
  first_value-VaryStarts cw k is_vary e none_ =
      ([], rw (e, is_vary, none_) (find-put_self (codes "Vary") (first ∷ []) cw.header))

  pub add_all-VaryStarts :
      (cw : Captured) (h : Header) (rest : List Action)
      → All LeavesVary rest
      → IsFine first h
      → NoVary cw
      → VaryStarts first (capture cw (add_all h ++ rest)).header
  unfolding add_all find capture
  add_all-VaryStarts cw [] rest leaves ((tail, found), c) none_ =
      absurd (let q : none ≡ some (first ∷ tail) = found in cc)
  add_all-VaryStarts cw ((k, vs) ∷ h) rest leaves ((tail, found), (e, c)) none_ =
      elim (text_eq k (codes "Vary")) [
        | yes is_vary ↦
            let values : some vs ≡ some (first ∷ tail) =
              sym (if_pos (text_eq k (codes "Vary")) is_vary (some vs) (find (codes "Vary") h))
              ∙ found in
            let same : vs ≡ first ∷ tail = cc in
            rw same (
              capture-VaryStarts first (capture_one cw (add_header k first))
                ((add_values k tail ++ add_all h) ++ rest)
                (All-append LeavesVary (add_values k tail ++ add_all h) rest
                  (All-append LeavesVary (add_values k tail) (add_all h)
                    (add_values-LeavesVary k tail) (add_all-LeavesVary h))
                  leaves)
                (first_value-VaryStarts cw k is_vary e none_))
        | no other ↦
            let later : find (codes "Vary") h ≡ some (first ∷ tail) =
              sym (if_neg (text_eq k (codes "Vary")) other (some vs) (find (codes "Vary") h))
              ∙ found in
            let step =
              ap (capture cw) (append_assoc (add_values k vs) (add_all h) rest)
              ∙ capture-append cw (add_values k vs) (add_all h ++ rest) in
            let unlike : canonical k ≢ codes "Vary" = λ q. other (sym e ∙ q) in
            subst (λ (x : Captured). VaryStarts first x.header) (sym step)
              (add_all-VaryStarts (capture cw (add_values k vs)) h rest leaves ((tail, later), c)
                (add_values-NoVary cw k vs unlike none_))
      ]
