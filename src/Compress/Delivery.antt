-- ===== src/Compress/Delivery.antt =====
-- That the writer of internal/middleware/compress.go delivers the body that the handler wrote.
use go_api_gateway.Prelude.{
  ℕ, ◌≡◌, refl, true, false, List, [], ◌∷◌, ◌++◌, arith, ℤ, pos, ltb_ℤ, Text, codes, length,
  Bool-cases, inl, inr, ◌⊎◌, sym, ◌∙◌, ap, subst, length-append,
}
use mathlib.Core.List.{append-nil, append_assoc}
use go_api_gateway.Strings.{is_nil}
use go_api_gateway.Http.{
  header_get, Header, Action, set_header, add_header, del_header, write_header, write, body_of,
}
use go_api_gateway.Compress.{
  CompressWriter, new_writer, decide, flush_buffered, write_bytes, step, steps, finish, close,
  compress_response, vary_header, is_compressible_type,
}

-- `body` is what the handler has written so far: all of it is buffered, or all of it went through
-- gzip, and is not below the threshold, or all of it went to the client as it is.
data Carries (min : ℤ) (cw : CompressWriter) (body : Text) : Type 0 where
  held :
      cw.min_size ≡ min
      → cw.wrote_head ≡ false
      → cw.buf ≡ body
      → cw.plain ≡ []
      → cw.zipped ≡ []
      → Carries min cw body
  zipping :
      cw.min_size ≡ min
      → cw.wrote_head ≡ true
      → cw.compress ≡ true
      → cw.zipped ≡ body
      → cw.plain ≡ []
      → ltb_ℤ (pos (length body)) min ≡ false
      → Carries min cw body
  passing :
      cw.min_size ≡ min
      → cw.wrote_head ≡ true
      → cw.compress ≡ false
      → cw.plain ≡ body
      → cw.zipped ≡ []
      → Carries min cw body

-- What has reached the threshold stays there.
longer :
    (min : ℤ) (xs ys : Text)
    → ltb_ℤ (pos (length xs)) min ≡ false
    → ltb_ℤ (pos (length (xs ++ ys))) min ≡ false
longer min xs ys h = ground (arith, length-append xs ys)

module _ (detect : Text → Text) where
  decide-frame :
      (cw : CompressWriter)
      → ((decide detect cw).buf ≡ cw.buf)
        × ((decide detect cw).plain ≡ cw.plain)
        × ((decide detect cw).zipped ≡ cw.zipped)
        × ((decide detect cw).min_size ≡ cw.min_size)
  unfolding decide
  decide-frame cw = elim (Bool-cases (is_nil (header_get (codes "Content-Encoding") cw.header))) [
    | inr encoded ↦ rw encoded (refl, refl, refl, refl)
    | inl bare ↦
        elim (Bool-cases
          (is_compressible_type detect (header_get (codes "Content-Type") cw.header) cw.buf)) [
            | inl fits ↦ rw (bare, fits) (refl, refl, refl, refl)
            | inr other ↦ rw (bare, other) (refl, refl, refl, refl)
          ]
  ]

  flush_buffered-Carries :
      (min : ℤ) (cw : CompressWriter) (body : Text)
      → cw.min_size ≡ min
      → cw.buf ≡ body
      → cw.plain ≡ []
      → cw.zipped ≡ []
      → ltb_ℤ (pos (length body)) min ≡ false ⊎ (cw.compress ≡ false)
      → Carries min (flush_buffered detect cw) body
  unfolding flush_buffered
  flush_buffered-Carries min cw body m b p z why = elim (Bool-cases cw.compress) [
    | inl zips ↦ rw zips (
        zipping m refl refl b p (elim why [
          | inl long ↦ long
          | inr off ↦ absurd (let q : true ≡ false = sym zips ∙ off in cc)
        ]))
    | inr plain ↦ rw plain (passing m refl refl (ground (arith, p, b)) z)
  ]

  write_bytes-long :
      (cw : CompressWriter) (b : Text)
      → cw.wrote_head ≡ false
      → ltb_ℤ (pos (length (cw.buf ++ b))) cw.min_size ≡ false
      → write_bytes detect cw b
        ≡ flush_buffered detect (decide detect (record cw { buf = cw.buf ++ b }))
  unfolding write_bytes
  write_bytes-long cw b h long = rw (h, long) refl

  write_bytes-Carries :
      (min : ℤ) (cw : CompressWriter) (body b : Text)
      → Carries min cw body
      → Carries min (write_bytes detect cw b) (body ++ b)
  unfolding write_bytes
  write_bytes-Carries min cw body b (held m h e p z) =
      elim (Bool-cases (ltb_ℤ (pos (length (cw.buf ++ b))) cw.min_size)) [
        | inl short ↦ rw (h, short) (held m refl (ap (λ x. x ++ b) e) p z)
        | inr long ↦
            let cw' = record cw { buf = cw.buf ++ b } in
            let (kb, kp, kz, km) = decide-frame cw' in
            subst (λ x. Carries min x (body ++ b)) (sym (write_bytes-long cw b h long))
              (flush_buffered-Carries min (decide detect cw') (body ++ b) (km ∙ m)
                (kb ∙ ap (λ x. x ++ b) e) (kp ∙ p) (kz ∙ z)
                (inl (
                  let q : ltb_ℤ (pos (length (body ++ b))) min ≡ false =
                    subst (λ x. ltb_ℤ (pos (length (x ++ b))) min ≡ false) e
                      (subst (λ x. ltb_ℤ (pos (length (cw.buf ++ b))) x ≡ false) m long) in
                  q)))
      ]
  write_bytes-Carries min cw body b (zipping m h c e p long) =
      rw (h, c) (zipping m refl refl (ap (λ x. x ++ b) e) p (longer min body b long))
  write_bytes-Carries min cw body b (passing m h c e z) =
      rw (h, c) (passing m refl refl (ap (λ x. x ++ b) e) z)

  reheaded-Carries :
      (min : ℤ) (cw : CompressWriter) (body : Text) (h : Header) (c : ℕ)
      → Carries min cw body
      → Carries min (record cw { header = h; status_code = c }) body
  reheaded-Carries min cw body h c (held m w b p z) = held m w b p z
  reheaded-Carries min cw body h c (zipping m w k z p l) = zipping m w k z p l
  reheaded-Carries min cw body h c (passing m w k p z) = passing m w k p z

  steps-Carries :
      (min : ℤ) (actions : List Action) (cw : CompressWriter) (body : Text)
      → Carries min cw body
      → Carries min (steps detect cw actions) (body ++ body_of actions)
  unfolding steps step
  steps-Carries min [] cw body k = subst (Carries min cw) (sym (append-nil body)) k
  steps-Carries min (set_header name v ∷ actions) cw body k =
      steps-Carries min actions _ body (reheaded-Carries min cw body _ cw.status_code k)
  steps-Carries min (add_header name v ∷ actions) cw body k =
      steps-Carries min actions _ body (reheaded-Carries min cw body _ cw.status_code k)
  steps-Carries min (del_header name ∷ actions) cw body k =
      steps-Carries min actions _ body (reheaded-Carries min cw body _ cw.status_code k)
  steps-Carries min (write_header code ∷ actions) cw body k =
      steps-Carries min actions _ body (reheaded-Carries min cw body cw.header code k)
  steps-Carries min (write b ∷ actions) cw body k =
      subst (Carries min (steps detect (write_bytes detect cw b) actions))
        (append_assoc body b (body_of actions))
        (steps-Carries min actions _ (body ++ b) (write_bytes-Carries min cw body b k))

  -- What has reached the client at the end: the whole body through gzip, whose writer was closed, or
  -- the whole body as it is.
  pub data Delivered (min : ℤ) (cw : CompressWriter) (body : Text) : Type 0 where
    as_gzip :
        cw.compress ≡ true
        → cw.closed ≡ true
        → cw.zipped ≡ body
        → cw.plain ≡ []
        → ltb_ℤ (pos (length body)) min ≡ false
        → Delivered min cw body
    as_is : cw.compress ≡ false → cw.plain ≡ body → cw.zipped ≡ [] → Delivered min cw body

  close-Delivered :
      (min : ℤ) (cw : CompressWriter) (body : Text)
      → cw.wrote_head ≡ true
      → Carries min cw body
      → Delivered min (close detect cw) body
  close-Delivered min cw body w (held m h b p z) = absurd (let q : true ≡ false = sym w ∙ h in cc)
  close-Delivered min cw body w (zipping m h k z p l) = rw k (as_gzip refl refl z p l)
  close-Delivered min cw body w (passing m h k p z) = rw k (as_is refl p z)

  finish-held :
      (cw : CompressWriter)
      → cw.wrote_head ≡ false
      → finish detect cw ≡ close detect (flush_buffered detect (record cw { compress = false }))
  unfolding finish
  finish-held cw h = rw h refl

  finish-closed : (cw : CompressWriter) → cw.wrote_head ≡ true → finish detect cw ≡ close detect cw
  unfolding finish
  finish-closed cw h = rw h refl

  finish-Delivered :
      (min : ℤ) (cw : CompressWriter) (body : Text)
      → Carries min cw body
      → Delivered min (finish detect cw) body
  unfolding finish
  finish-Delivered min cw body (held m h b p z) =
      let flushed = record cw { compress = false } in
      subst (λ x. Delivered min x body) (sym (finish-held cw h))
        (close-Delivered min (flush_buffered detect flushed) body (unfold flush_buffered in refl)
          (flush_buffered-Carries min flushed body m b p z (inr refl)))
  finish-Delivered min cw body (zipping m h k z p l) =
      subst (λ x. Delivered min x body) (sym (finish-closed cw h))
        (close-Delivered min cw body h (zipping m h k z p l))
  finish-Delivered min cw body (passing m h k p z) =
      subst (λ x. Delivered min x body) (sym (finish-closed cw h))
        (close-Delivered min cw body h (passing m h k p z))

  -- Whatever the handler's calls, in pieces of whatever size, the whole of the body that it writes
  -- is delivered, once, either all through gzip or all as it is, and through gzip only if it has at
  -- least `min_size` bytes.
  pub compress_response-Delivered :
      (min : ℤ) (header : Header) (actions : List Action)
      → Delivered min (compress_response detect min header actions) (body_of actions)
  unfolding compress_response
  compress_response-Delivered min header actions = finish-Delivered min _ (body_of actions) (
      steps-Carries min actions (new_writer min (vary_header detect header)) []
        (unfold new_writer in held refl refl refl refl refl))
