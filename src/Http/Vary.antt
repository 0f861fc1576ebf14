-- ===== src/Http/Vary.antt =====
-- What the calls on a header do to its Vary.
use go_api_gateway.Prelude.{
  ◌≡◌, ◌≢◌, ◌∙◌, some, List, [], ◌∷◌, ◌++◌, Text, codes, text_eq, if_pos, if_neg,
}
use go_api_gateway.Prelude.Dict.{find, put, delete, find-put_self, find-put_ne, find-delete_ne}
use go_api_gateway.Http.{
  Header, Action, set_header, del_header, header_set, header_add, header_del, canonical,
}
use go_api_gateway.Http.Canonical.{canonical_twice}

-- The call does not replace or remove a Vary; it may add one.
abbrev pub LeavesVary : Action → Type 0
LeavesVary (set_header name v) = canonical name ≢ codes "Vary"
LeavesVary (del_header name) = canonical name ≢ codes "Vary"
LeavesVary _ = Unit

-- The first value of Vary.
abbrev pub VaryStarts : Text → Header → Type 0
VaryStarts first h = (rest : List Text) × (find (codes "Vary") h ≡ some (first ∷ rest))

-- All names are canonical.
abbrev pub IsCanonical : Header → Type 0
IsCanonical [] = Unit
IsCanonical ((k, vs) ∷ h) = (canonical k ≡ k) × IsCanonical h

put-IsCanonical :
    (k : Text) (vs : List Text) (h : Header)
    → canonical k ≡ k
    → IsCanonical h
    → IsCanonical (put k vs h)
unfolding put
put-IsCanonical k vs [] e c = (e, tt)
put-IsCanonical k vs ((j, ws) ∷ h) e (f, c) = elim (text_eq j k) [
  | yes same ↦ rw (if_pos (text_eq j k) same) (e, c)
  | no other ↦ rw (if_neg (text_eq j k) other) (f, put-IsCanonical k vs h e c)
]

delete-IsCanonical : (k : Text) (h : Header) → IsCanonical h → IsCanonical (delete k h)
unfolding delete
delete-IsCanonical k [] c = tt
delete-IsCanonical k ((j, ws) ∷ h) (f, c) = elim (text_eq j k) [
  | yes same ↦ rw (if_pos (text_eq j k) same) (delete-IsCanonical k h c)
  | no other ↦ rw (if_neg (text_eq j k) other) (f, delete-IsCanonical k h c)
]

module _ (first : Text) where
  pub header_add-VaryStarts :
      (name v : Text) (h : Header) → VaryStarts first h → VaryStarts first (header_add name v h)
  unfolding header_add
  header_add-VaryStarts name v h (rest, found) = elim (text_eq (canonical name) (codes "Vary")) [
    | yes same ↦ (
      rest ++ v ∷ [],
      rw (same, found) (find-put_self (codes "Vary") (first ∷ (rest ++ v ∷ [])) h),
    )
    | no other ↦ (rest, find-put_ne (canonical name) (codes "Vary") _ h other ∙ found)
  ]

  pub header_set-VaryStarts :
      (name v : Text) (h : Header)
      → canonical name ≢ codes "Vary"
      → VaryStarts first h
      → VaryStarts first (header_set name v h)
  unfolding header_set
  header_set-VaryStarts name v h other (rest, found) =
      (rest, find-put_ne (canonical name) (codes "Vary") (v ∷ []) h other ∙ found)

  pub header_del-VaryStarts :
      (name : Text) (h : Header)
      → canonical name ≢ codes "Vary"
      → VaryStarts first h
      → VaryStarts first (header_del name h)
  unfolding header_del
  header_del-VaryStarts name h other (rest, found) =
      (rest, find-delete_ne (canonical name) (codes "Vary") h other ∙ found)

  -- Both.
  abbrev pub IsFine : Header → Type 0
  IsFine h = VaryStarts first h × IsCanonical h

  pub add-IsFine : (name v : Text) (h : Header) → IsFine h → IsFine (header_add name v h)
  unfolding header_add
  add-IsFine name v h (starts, c) = (
    header_add-VaryStarts name v h starts,
    put-IsCanonical (canonical name) _ h (canonical_twice name) c,
  )

  pub set-IsFine :
      (name v : Text) (h : Header)
      → canonical name ≢ codes "Vary"
      → IsFine h
      → IsFine (header_set name v h)
  unfolding header_set
  set-IsFine name v h other (starts, c) = (
    header_set-VaryStarts name v h other starts,
    put-IsCanonical (canonical name) _ h (canonical_twice name) c,
  )

  pub del-IsFine :
      (name : Text) (h : Header)
      → canonical name ≢ codes "Vary"
      → IsFine h
      → IsFine (header_del name h)
  unfolding header_del
  del-IsFine name h other (starts, c) =
      (header_del-VaryStarts name h other starts, delete-IsCanonical (canonical name) h c)
