-- ===== src/Compress.antt =====
-- internal/middleware/compress.go: the writer that holds a response back until it is known whether
-- to compress it. Content sniffing is a parameter, and so is gzip: the writer keeps the bytes
-- that the gzip writer was given. Writes to the client do not fail.
pub mod Delivery
pub mod Vary
use go_api_gateway.Prelude.{
  ℕ, Bool, true, false, not, Option, none, some, List, [], ◌∷◌, ◌++◌, any, if◌then◌else◌, ite, ℤ,
  pos, ltb_ℤ, Text, codes, text_eq, length, ◌==◌,
}
use go_api_gateway.Strings.{split, trim_space, cut, equal_fold, has_prefix, is_nil}
use go_api_gateway.Http.{
  Header, Request, Action, set_header, add_header, del_header, write_header, write, Handler,
  header_get, header_set, header_add, header_del, add_all,
}

unfoldable pub client_accepts_gzip : Text → Bool
unfolding split cut trim_space equal_fold
client_accepts_gzip header =
    any (λ part. equal_fold (trim_space (cut b';' (trim_space part)).0) (codes "gzip"))
      (split b',' header)

unfoldable pub compressible_content_types : List Text
compressible_content_types =
    codes "text/"
    ∷ codes "application/json"
    ∷ codes "application/xml"
    ∷ codes "application/javascript"
    ∷ codes "application/x-www-form-urlencoded"
    ∷ []

-- `header` is that of the response under the writer, `sent` the status and the header that went to
-- the client, `plain` the bytes behind them, and `zipped` what the gzip writer was given.
pub record CompressWriter : Type 0 where
  pub min_size : ℤ
  pub wrote_head : Bool
  pub compress : Bool
  pub buf : Text
  pub status_code : ℕ
  pub header : Header
  pub sent : Option (ℕ × Header)
  pub plain : Text
  pub zipped : Text
  pub closed : Bool

unfoldable pub new_writer : ℤ → Header → CompressWriter
new_writer min_size header = record {
  min_size = min_size;
  wrote_head = false;
  compress = false;
  buf = [];
  status_code = 0;
  header = header;
  sent = none;
  plain = [];
  zipped = [];
  closed = false;
}

module _ (detect : Text → Text) where
  unfoldable pub is_compressible_type : Text → Text → Bool
  unfolding cut trim_space has_prefix compressible_content_types
  is_compressible_type content_type sniff =
      let content_type' = if is_nil content_type then detect sniff else content_type in
      any (has_prefix (trim_space (cut b';' content_type').0)) compressible_content_types

  unfoldable pub decide : CompressWriter → CompressWriter
  unfolding header_get header_set header_del is_compressible_type
  decide cw =
      if is_nil (header_get (codes "Content-Encoding") cw.header)
      then (if is_compressible_type (header_get (codes "Content-Type") cw.header) cw.buf
          then record cw {
            compress = true;
            header =
                header_del (codes "Content-Length")
                  (header_set (codes "Content-Encoding") (codes "gzip") cw.header);
          }
          else record cw { compress = false })
      else record cw { compress = false }

  abbrev pub status_or_ok : ℕ → ℕ
  status_or_ok status = if status == 0 then 200 else status

  -- `Reset` makes the gzip writer start anew.
  unfoldable pub flush_buffered : CompressWriter → CompressWriter
  flush_buffered cw =
      let cw' = record cw {
        sent = some (status_or_ok cw.status_code, cw.header);
        wrote_head = true;
        buf = [];
      } in
      if cw.compress
      then record cw' { zipped = cw.buf }
      else record cw' { plain = cw.plain ++ cw.buf }

  unfoldable pub write_bytes : CompressWriter → Text → CompressWriter
  write_bytes cw b =
      let cw' = record cw { buf = cw.buf ++ b } in
      if cw.wrote_head
      then (if cw.compress
          then record cw { zipped = cw.zipped ++ b }
          else record cw { plain = cw.plain ++ b })
      else (if ltb_ℤ (pos (length (cw.buf ++ b))) cw.min_size
          then cw'
          else flush_buffered (decide cw'))

  -- A call of the handler behind on the writer.
  unfoldable pub step : CompressWriter → Action → CompressWriter
  step cw (set_header name v) = record cw { header = header_set name v cw.header }
  step cw (add_header name v) = record cw { header = header_add name v cw.header }
  step cw (del_header name) = record cw { header = header_del name cw.header }
  step cw (write_header code) = record cw { status_code = code }
  step cw (write b) = write_bytes cw b

  unfoldable pub steps : CompressWriter → List Action → CompressWriter
  steps cw [] = cw
  steps cw (a ∷ rest) = steps (step cw a) rest

  abbrev pub close : CompressWriter → CompressWriter
  close cw = if cw.compress then record cw { closed = true } else cw

  unfoldable pub finish : CompressWriter → CompressWriter
  finish cw =
      if cw.wrote_head then close cw else close (flush_buffered (record cw { compress = false }))

  abbrev pub vary_header : Header → Header
  vary_header header = header_add (codes "Vary") (codes "Accept-Encoding") header

  -- `Compress` for a client that accepts gzip: the handler's calls go through the writer.
  unfoldable pub compress_response : ℤ → Header → List Action → CompressWriter
  compress_response min_size header actions =
      finish (steps (new_writer min_size (vary_header header)) actions)

  -- `Compress`, where `gzip` is the stream that the gzip writer makes of the bytes.
  abbrev pub body_sent : (Text → Text) → CompressWriter → Text
  body_sent gzip cw = if cw.compress then gzip cw.zipped else cw.plain

  abbrev pub emit : (Text → Text) → CompressWriter → Option (ℕ × Header) → List Action
  emit gzip cw none = []
  emit gzip cw (some (status, header)) =
      add_all header ++ write_header status ∷ write (body_sent gzip cw) ∷ []

  unfoldable pub compress : {S : Type 0} → (Text → Text) → ℤ → Handler S → Handler S
  unfolding header_get
  compress gzip min_size next r s =
      let (actions, s') = next r s in
      let cw = compress_response min_size [] actions in
      if client_accepts_gzip (header_get (codes "Accept-Encoding") r.header)
      then (emit gzip cw cw.sent, s')
      else (add_header (codes "Vary") (codes "Accept-Encoding") ∷ actions, s')
