-- ===== src/HttpCache/Tests.antt =====
-- A small page of two writes, which is passed on.
use aleart_hub.Base.{none, List, [], ◌∷◌, text}
use aleart_hub.HttpCache.{Headers, Response, Call, writes_header, writes, flushes}

abbrev plain_text : Headers
plain_text = record {
  content_type = text "text/plain";
  content_length = text "4";
  content_encoding = [];
  cache_control = [];
  vary = [];
}

abbrev fresh : Response
fresh = record { headers = plain_text; sent = none; body = [] }

abbrev page : List Call
page = writes_header 404 ∷ writes (text "no") ∷ flushes ∷ writes (text "pe") ∷ []
