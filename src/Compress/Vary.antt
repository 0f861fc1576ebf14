-- ===== src/Compress/Vary.antt =====
-- That internal/middleware/compress.go keeps the Vary that it has set in front of the handler's.
use go_api_gateway.Prelude.{
  ℕ, subst, Bool, true, false, Option, none, some, List, [], ◌∷◌, ◌++◌, ℤ, pos, Text, codes, All,
  Bool-cases, inl, inr, ltb_ℤ, length,
}
use go_api_gateway.Strings.{is_nil}
use go_api_gateway.Http.{
  Header, Action, set_header, add_header, del_header, write_header, write, header_get, header_set,
  header_del, canonical, all_token, canonical_from,
}
use go_api_gateway.Http.Vary.{LeavesVary, IsFine, add-IsFine, set-IsFine, del-IsFine}
use go_api_gateway.Compress.{
  CompressWriter, new_writer, decide, is_compressible_type, flush_buffered, write_bytes, step,
  steps, close, finish, compress_response, vary_header,
}

module _ (first : Text) where
  -- What went to the client, if anything has to.
  abbrev pub SentFine : Bool → Option (ℕ × Header) → Type 0
  SentFine false sent = Unit
  SentFine true none = ⊥
  SentFine true (some (status, h)) = IsFine first h

  pub record IsKept (cw : CompressWriter) : Type 0 where
    pub kept : IsFine first cw.header
    pub out : SentFine cw.wrote_head cw.sent

  module _ (detect : Text → Text) where
    decide-IsFine :
        (cw : CompressWriter) → IsFine first cw.header → IsFine first (decide detect cw).header
    unfolding decide canonical all_token canonical_from
    decide-IsFine cw fine =
        let fine' : IsFine first (
            header_del (codes "Content-Length")
              (header_set (codes "Content-Encoding") (codes "gzip") cw.header)) =
          del-IsFine first (codes "Content-Length")
            (header_set (codes "Content-Encoding") (codes "gzip") cw.header) (λ e. cc)
            (set-IsFine first (codes "Content-Encoding") (codes "gzip") cw.header (λ e. cc) fine) in
        elim (Bool-cases (is_nil (header_get (codes "Content-Encoding") cw.header))) [
          | inr coded ↦ rw coded fine
          | inl bare ↦
              elim (Bool-cases (
                is_compressible_type detect (header_get (codes "Content-Type") cw.header) cw.buf)) [
                  | inl zips ↦ rw (bare, zips) fine'
                  | inr plain ↦ rw (bare, plain) fine
                ]
        ]

    flush_buffered-IsKept :
        (cw : CompressWriter) → IsFine first cw.header → IsKept (flush_buffered detect cw)
    unfolding flush_buffered
    flush_buffered-IsKept cw fine = elim (Bool-cases cw.compress) [
      | inl zips ↦ rw zips (record { kept = fine; out = fine })
      | inr plain ↦ rw plain (record { kept = fine; out = fine })
    ]

    write_bytes-IsKept :
        (cw : CompressWriter) (b : Text) → IsKept cw → IsKept (write_bytes detect cw b)
    unfolding write_bytes
    write_bytes-IsKept cw b k = elim (Bool-cases cw.wrote_head) [
      | inl wrote ↦ elim (Bool-cases cw.compress) [
        | inl zips ↦
            rw (wrote, zips)
              (record { kept = k.kept; out = subst (λ w. SentFine w cw.sent) wrote k.out })
        | inr plain ↦
            rw (wrote, plain)
              (record { kept = k.kept; out = subst (λ w. SentFine w cw.sent) wrote k.out })
      ]
      | inr new ↦ elim (Bool-cases (ltb_ℤ (pos (length (cw.buf ++ b))) cw.min_size)) [
        | inl small ↦ rw (new, small) (record { kept = k.kept; out = tt })
        | inr big ↦
            rw (new, big)
              (flush_buffered-IsKept
                (decide detect (record cw { wrote_head = false; buf = cw.buf ++ b }))
                (decide-IsFine (record cw { wrote_head = false; buf = cw.buf ++ b }) k.kept))
      ]
    ]

    step-IsKept :
        (cw : CompressWriter) (a : Action) → LeavesVary a → IsKept cw → IsKept (step detect cw a)
    unfolding step
    step-IsKept cw (set_header name v) other k = record {
      kept = set-IsFine first name v cw.header other k.kept;
      out = k.out;
    }
    step-IsKept cw (add_header name v) leaves k = record {
      kept = add-IsFine first name v cw.header k.kept;
      out = k.out;
    }
    step-IsKept cw (del_header name) other k = record {
      kept = del-IsFine first name cw.header other k.kept;
      out = k.out;
    }
    step-IsKept cw (write_header code) leaves k = record { kept = k.kept; out = k.out }
    step-IsKept cw (write b) leaves k = write_bytes-IsKept cw b k

    steps-IsKept :
        (cw : CompressWriter) (actions : List Action)
        → All LeavesVary actions
        → IsKept cw
        → IsKept (steps detect cw actions)
    unfolding steps
    steps-IsKept cw [] leaves k = k
    steps-IsKept cw (a ∷ actions) (leaf, leaves) k =
        steps-IsKept (step detect cw a) actions leaves (step-IsKept cw a leaf k)

    SentFine-close :
        (cw : CompressWriter) → SentFine true cw.sent → SentFine true (close detect cw).sent
    SentFine-close cw fine = elim (Bool-cases cw.compress) [
      | inl zips ↦ rw zips fine
      | inr plain ↦ rw plain fine
    ]

    flush_buffered-sent :
        (cw : CompressWriter)
        → IsFine first cw.header
        → SentFine true (flush_buffered detect cw).sent
    unfolding flush_buffered
    flush_buffered-sent cw fine = elim (Bool-cases cw.compress) [
      | inl zips ↦ rw zips fine
      | inr plain ↦ rw plain fine
    ]

    finish-SentFine : (cw : CompressWriter) → IsKept cw → SentFine true (finish detect cw).sent
    unfolding finish
    finish-SentFine cw k = elim (Bool-cases cw.wrote_head) [
      | inl wrote ↦ rw wrote (
          SentFine-close (record cw { wrote_head = true })
            (subst (λ w. SentFine w cw.sent) wrote k.out))
      | inr new ↦
          let plain : CompressWriter = record cw { wrote_head = false; compress = false } in
          rw new (SentFine-close (flush_buffered detect plain) (flush_buffered-sent plain k.kept))
    ]

    -- What goes to the client keeps what stands first in Vary.
    pub compress_response-sent :
        (min_size : ℤ) (actions : List Action)
        → IsFine first (vary_header detect [])
        → All LeavesVary actions
        → SentFine true (compress_response detect min_size [] actions).sent
    unfolding compress_response new_writer
    compress_response-sent min_size actions fine leaves =
        let writer = new_writer min_size (vary_header detect []) in
        finish-SentFine (steps detect writer actions)
          (steps-IsKept writer actions leaves (record { kept = fine; out = tt }))
