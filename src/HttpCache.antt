-- ===== src/HttpCache.antt =====
-- server/internal/api/httpcache.go: when a response is compressed, and its Cache-Control. The
-- response below is a log of what reaches it; gzip is a parameter. A header is its value, empty where
-- it is not set.
pub mod Tracks
pub mod Gzip
mod Tests
use aleart_hub.Base.{
  ℕ, zero, suc, ◌+◌, Bool, true, false, not, ◌&&◌, ◌||◌, Option, none, some, List, [], ◌∷◌, ◌++◌,
  any, map, if◌then◌else◌, ◌==◌, nat_eq, text_eq, ltb, leb, length, Text, text, has_prefix,
  contains, cut, trim_space, lower,
}

abbrev pub gzip_min_bytes : ℕ
gzip_min_bytes = 1024

unfoldable pub compressible_types : List Text
compressible_types =
    text "application/javascript"
    ∷ text "text/javascript"
    ∷ text "application/json"
    ∷ text "text/html"
    ∷ text "text/css"
    ∷ text "text/plain"
    ∷ text "image/svg+xml"
    ∷ text "application/manifest+json"
    ∷ text "application/samlmetadata+xml"
    ∷ text "text/xml"
    ∷ text "application/xml"
    ∷ []

-- compressibleType, for a Content-Type of ASCII bytes.
unfoldable pub compressible_type : Text → Bool
compressible_type ct =
    let base = map lower (trim_space (cut b';' ct).0) in
    any (λ t. t == base) compressible_types || has_prefix (text "text/") base

pub record Headers : Type 0 where
  pub content_type : Text
  pub content_length : Text
  pub content_encoding : Text
  pub cache_control : Text
  pub vary : List Text

-- What the ResponseWriter below was given: the status and the headers that it was sent with, and the
-- bytes after it. A write without a status sends 200.
pub record Response : Type 0 where
  pub headers : Headers
  pub sent : Option (ℕ × Headers)
  pub body : Text

-- The WriteHeader of net/http: the first wins, of the statuses from 200 on; no handler sends one below.
unfoldable pub send_status : ℕ → Response → Response
send_status status r = elim r.sent [
  | none ↦ record r { sent = some (status, r.headers) }
  | some s ↦ r
]

unfoldable pub write_below : Text → Response → Response
write_below b r = let s = send_status 200 r in record s { body = s.body ++ b }

-- What a gzip.Writer was given: bytes, and the points where it was flushed.
pub data Chunk : Type 0 where
  bytes : Text → Chunk
  flushed : Chunk

-- gzipWriter, with what its compressor was given so far.
pub record GzipWriter : Type 0 where
  pub response : Response
  pub gz : Option (List Chunk)
  pub decided : Bool
  pub wrote_header : Bool
  pub status : ℕ
  pub buf : Text

unfoldable pub new_writer : Response → GzipWriter
new_writer r = record {
  response = r;
  gz = none;
  decided = false;
  wrote_header = false;
  status = 200;
  buf = [];
}

-- WriteHeader
unfoldable pub write_header : ℕ → GzipWriter → GzipWriter
write_header status w =
    if w.wrote_header then w else record w { wrote_header = true; status = status }

unfoldable pub compresses : GzipWriter → Bool
compresses w =
    leb gzip_min_bytes (length w.buf)
    && (leb 200 w.status && ltb w.status 300)
    && compressible_type w.response.headers.content_type

-- decide
unfoldable pub decide : GzipWriter → GzipWriter
decide w =
    if compresses w
    then record w {
      decided = true;
      buf = [];
      gz = some (bytes w.buf ∷ []);
      response = send_status w.status (record w.response {
        headers = record w.response.headers { content_length = []; content_encoding = text "gzip" };
      });
    }
    else record w {
      decided = true;
      buf = [];
      response = elim w.buf [
        | [] ↦ send_status w.status w.response
        | c ∷ s ↦ write_below (c ∷ s) (send_status w.status w.response)
      ];
    }

-- Write
unfoldable pub write : Text → GzipWriter → GzipWriter
write b w =
    let w' = if w.wrote_header then w else record w { wrote_header = true; status = 200 } in
    let more = record w' { buf = w'.buf ++ b } in
    if w'.decided
    then elim w'.gz [
      | none ↦ record w' { response = write_below b w'.response }
      | some z ↦ record w' { gz = some (z ++ bytes b ∷ []) }
    ]
    else if ltb (length more.buf) gzip_min_bytes
    then more
    else decide more

-- The Flush of net/http sends the head.
unfoldable pub flush_below : Response → Response
flush_below r = send_status 200 r

-- `if !w.decided { w.decide() }`
unfoldable pub settle : GzipWriter → GzipWriter
settle w = if w.decided then w else decide w

-- Flush after the decision.
unfoldable pub flush_settled : GzipWriter → GzipWriter
flush_settled w = elim w.gz [
  | none ↦ record w { response = flush_below w.response }
  | some z ↦ record w { gz = some (z ++ flushed ∷ []); response = flush_below w.response }
]

-- Flush
unfoldable pub flush : GzipWriter → GzipWriter
flush w = flush_settled (settle w)

-- What a handler does with a ResponseWriter: it sets a header while it can, chooses a status,
-- writes or flushes. A header that is set after the head was sent has no effect.
pub data Call : Type 0 where
  sets : (Headers → Headers) → Call
  writes_header : ℕ → Call
  writes : Text → Call
  flushes : Call

unfoldable pub set_headers : (Headers → Headers) → Response → Response
set_headers f r = record r { headers = f r.headers }

unfoldable pub call : Call → GzipWriter → GzipWriter
call (sets f) w = record w { response = set_headers f w.response }
call (writes_header status) w = write_header status w
call (writes b) w = write b w
call flushes w = flush w

unfoldable pub call_below : Call → Response → Response
call_below (sets f) r = set_headers f r
call_below (writes_header status) r = send_status status r
call_below (writes b) r = write_below b r
call_below flushes r = flush_below r

-- close after the decision, with what the compressor makes of all that it was given.
unfoldable pub close_settled : (List Chunk → Text) → GzipWriter → Response
close_settled gzip w = elim w.gz [ none ↦ w.response | some z ↦ write_below (gzip z) w.response ]

-- close
unfoldable pub close : (List Chunk → Text) → GzipWriter → Response
close gzip w = close_settled gzip (settle w)

abbrev pub calls : List Call → GzipWriter → GzipWriter
calls [] w = w
calls (c ∷ cs) w = calls cs (call c w)

abbrev pub calls_below : List Call → Response → Response
calls_below [] r = r
calls_below (c ∷ cs) r = calls_below cs (call_below c r)

-- withGzip, for a handler by what it calls; the headers Accept-Encoding and Range of the request.
unfoldable pub with_gzip : (List Chunk → Text) → Text → Text → List Call → Response → Response
with_gzip gzip accept_encoding range cs r =
    let r' = set_headers (λ h. record h { vary = h.vary ++ text "Accept-Encoding" ∷ [] }) r in
    if not (contains (text "gzip") accept_encoding) || not (range == [])
    then calls_below cs r'
    else close gzip (calls cs (new_writer r'))

-- withCacheControl, before the handler below it.
unfoldable pub with_cache_control : Text → Response → Response
with_cache_control value r =
    if r.headers.cache_control == []
    then set_headers (λ h. record h { cache_control = value }) r
    else r
