-- ===== src/HttpCache/Tracks.antt =====
-- The writer of api/httpcache.go during its calls, against the response that the same calls make
-- without it.
use aleart_hub.Base.{
  ℕ, ◌≡◌, ◌⊎◌, inl, inr, refl, sym, ap, subst, ◌∙◌, Bool, true, false, none, some, List, [], ◌∷◌,
  ◌++◌, append_assoc, append-nil, Bool-cases, arith, if◌then◌else◌, ltb, length, Text, text,
}
use aleart_hub.HttpCache.{
  Headers, Response, Chunk, bytes, flushed, GzipWriter, sets, send_status, write_below,
  write_header, compresses, decide, write, set_headers, call, call_below,
}

-- The status that the client sees; a response that was sent nothing is a 200.
abbrev pub status_of : Response → ℕ
status_of r = elim r.sent [ none ↦ 200 | some (s, h) ↦ s ]

abbrev pub is_sent : Response → Bool
is_sent r = elim r.sent [ none ↦ false | some s ↦ true ]

abbrev pub encoding_of : Response → Text
encoding_of r = elim r.sent [ none ↦ [] | some (s, h) ↦ h.content_encoding ]

abbrev pub length_of : Response → Text
length_of r = elim r.sent [ none ↦ [] | some (s, h) ↦ h.content_length ]

-- All bytes that a compressor was given.
abbrev pub all_bytes : List Chunk → Text
all_bytes [] = []
all_bytes (bytes b ∷ cs) = b ++ all_bytes cs
all_bytes (flushed ∷ cs) = all_bytes cs

pub all_bytes-append : (xs ys : List Chunk) → all_bytes (xs ++ ys) ≡ all_bytes xs ++ all_bytes ys
all_bytes-append [] ys = refl
all_bytes-append (bytes b ∷ xs) ys =
    ap (λ (t : Text). b ++ t) (all_bytes-append xs ys)
    ∙ sym (append_assoc b (all_bytes xs) (all_bytes ys))
all_bytes-append (flushed ∷ xs) ys = all_bytes-append xs ys

-- The writer while it holds everything back, after it chose to pass things on, and after it chose to
-- compress, against the response that the same calls make without it.
abbrev pub IsHeld : Response → GzipWriter → Type 0
IsHeld r w =
    (w.decided ≡ false)
    × (w.gz ≡ none)
    × (w.response.sent ≡ none)
    × (w.response.body ≡ [])
    × (r.body ≡ w.buf)
    × (status_of r ≡ w.status)
    × (is_sent r ≡ w.wrote_header)

abbrev pub IsPlain : Response → GzipWriter → Type 0
IsPlain r w =
    (w.decided ≡ true)
    × (w.gz ≡ none)
    × (is_sent w.response ≡ true)
    × (is_sent r ≡ true)
    × (status_of w.response ≡ status_of r)
    × (w.response.body ≡ r.body)

abbrev pub IsZipped : Response → GzipWriter → Type 0
IsZipped r w =
    (w.decided ≡ true)
    × (is_sent w.response ≡ true)
    × (is_sent r ≡ true)
    × (status_of w.response ≡ status_of r)
    × (w.response.body ≡ [])
    × (encoding_of w.response ≡ text "gzip")
    × (length_of w.response ≡ [])
    × ((z : List Chunk) × (w.gz ≡ some z) × (all_bytes z ≡ r.body))

abbrev pub Tracks : Response → GzipWriter → Type 0
Tracks r w = IsHeld r w ⊎ (IsPlain r w ⊎ IsZipped r w)

pub send_lem :
    (r : Response)
    → let s = send_status 200 r in
      (status_of s ≡ status_of r) × (is_sent s ≡ true) × (s.body ≡ r.body)
unfolding send_status
send_lem r = (ground arith, ground arith, ground arith)

-- A decision, against the response whose head is sent.
pub decide-Tracks :
    (r : Response) (w : GzipWriter)
    → IsHeld r w
    → IsPlain (send_status 200 r) (decide w) ⊎ IsZipped (send_status 200 r) (decide w)
unfolding decide send_status write_below
decide-Tracks r w (d, z, s, b, t, st, wh) =
    let (st', up, t') = send_lem r in
    elim (Bool-cases (compresses w)) [
      | inl zips ↦
          rw (zips, decide)
            (inr (
              refl,
              ground arith,
              up,
              ground arith,
              ground arith,
              ground arith,
              ground arith,
              (bytes w.buf ∷ [], refl, append-nil w.buf ∙ sym t ∙ sym t'),
            ))
      | inr passes ↦
          rw (passes, decide) (inl (refl, z, ground arith, up, ground arith, ground arith))
    ]

pub sets-Tracks :
    (f : Headers → Headers) (r : Response) (w : GzipWriter)
    → Tracks r w
    → Tracks (call_below (sets f) r) (call (sets f) w)
unfolding call call_below set_headers
sets-Tracks f r w (inl h) = inl h
sets-Tracks f r w (inr (inl h)) = inr (inl h)
sets-Tracks f r w (inr (inr h)) = inr (inr h)

-- Choosing a status: it counts if it is the first.
pub header-Tracks :
    (status : ℕ) (r : Response) (w : GzipWriter)
    → Tracks r w
    → Tracks (send_status status r) (write_header status w)
unfolding write_header send_status
header-Tracks status r w (inl (d, z, s, b, t, st, wh)) = elim (Bool-cases w.wrote_header) [
  | inl chosen ↦ rw (chosen) (inl (d, z, s, b, ground arith, ground arith, ground arith))
  | inr open' ↦ rw (open') (inl (d, z, s, b, ground arith, ground arith, ground arith))
]
header-Tracks status r w (inr (inl (d, z, s, up, st, b))) =
    inr (inl (ground arith, ground arith, ground arith, ground arith, ground arith, ground arith))
header-Tracks status r w (inr (inr (d, s, up, st, b, e, l, (z, q, t)))) = inr (
    inr (
      ground arith,
      ground arith,
      ground arith,
      ground arith,
      ground arith,
      ground arith,
      ground arith,
      (z, ground arith, ground arith),
    ))

-- The writer after it took more bytes, before any decision.
abbrev pub taken_in : Text → GzipWriter → GzipWriter
taken_in b w = record w {
  wrote_header = true;
  status = if w.wrote_header then w.status else 200;
  buf = w.buf ++ b;
}

pub taken_in-IsHeld :
    (b : Text) (r : Response) (w : GzipWriter)
    → IsHeld r w
    → IsHeld (write_below b r) (taken_in b w)
unfolding write_below send_status
taken_in-IsHeld b r w (d, z, s, e, t, st, wh) =
    (d, z, s, e, ground arith, ground arith, ground arith)

pub write_held :
    (b : Text) (w : GzipWriter)
    → w.decided ≡ false
    → write b w ≡ (if ltb (length (w.buf ++ b)) 1024 then taken_in b w else decide (taken_in b w))
unfolding write
write_held b w d = elim (Bool-cases w.wrote_header) [
  | inl chosen ↦ rw (chosen, d) refl
  | inr open' ↦ rw (open', d) refl
]

pub sent_again : (r : Response) → is_sent r ≡ true → send_status 200 r ≡ r
unfolding send_status
sent_again r up = ground arith

pub write_below-is_sent : (b : Text) (r : Response) → is_sent (write_below b r) ≡ true
unfolding write_below send_status
write_below-is_sent b r = ground arith

pub decided-Tracks :
    (r : Response) (w : GzipWriter) → is_sent r ≡ true → IsHeld r w → Tracks r (decide w)
decided-Tracks r w up h =
    subst (λ (x : Response). Tracks x (decide w)) (sent_again r up) (inr (decide-Tracks r w h))

pub write_plain :
    (b : Text) (w : GzipWriter)
    → w.decided ≡ true
    → w.gz ≡ none
    → ((write b w).decided ≡ true)
      × ((write b w).gz ≡ none)
      × ((write b w).response ≡ write_below b w.response)
unfolding write
write_plain b w d z = (ground arith, ground arith, ground arith)

pub write_zipped :
    (b : Text) (w : GzipWriter) (z : List Chunk)
    → w.decided ≡ true
    → w.gz ≡ some z
    → ((write b w).decided ≡ true)
      × ((write b w).gz ≡ some (z ++ bytes b ∷ []))
      × ((write b w).response ≡ w.response)
unfolding write
write_zipped b w z d q = (ground arith, ground arith, ground arith)

-- A write to a response whose head is sent.
pub write_sent :
    (b : Text) (r : Response)
    → is_sent r ≡ true
    → let r' = write_below b r in
      (is_sent r' ≡ true) × (status_of r' ≡ status_of r) × (r'.body ≡ r.body ++ b)
unfolding write_below send_status
write_sent b r up = (ground arith, ground arith, ground arith)

pub writes-Tracks :
    (b : Text) (r : Response) (w : GzipWriter) → Tracks r w → Tracks (write_below b r) (write b w)
writes-Tracks b r w (inl h) =
    let held = taken_in-IsHeld b r w h in
    subst (Tracks (write_below b r)) (sym (write_held b w h.0))
      (elim (Bool-cases (ltb (length (w.buf ++ b)) 1024)) [
        | inl small ↦ rw small (inl held)
        | inr large ↦
            rw large
              (decided-Tracks (write_below b r) (taken_in b w) (write_below-is_sent b r) held)
      ])
writes-Tracks b r w (inr (inl (d, z, s, up, st, t))) =
    let (d', z', r') = write_plain b w d z in
    let (a, e, o) = write_sent b r up in
    let (a', e', o') = write_sent b w.response s in
    inr (
      inl (
        d',
        z',
        (ap is_sent r' ∙ a'),
        a,
        (ap status_of r' ∙ e' ∙ st ∙ sym e),
        (ap (λ (x : Response). x.body) r' ∙ o' ∙ ap (λ (x : Text). x ++ b) t ∙ sym o),
      ))
writes-Tracks b r w (inr (inr (d, s, up, st, e, en, le, (z, q, t)))) =
    let (d', z', r') = write_zipped b w z d q in
    let (a, f, o) = write_sent b r up in
    inr (
      inr (
        d',
        (ap is_sent r' ∙ s),
        a,
        (ap status_of r' ∙ st ∙ sym f),
        (ap (λ (x : Response). x.body) r' ∙ e),
        (ap encoding_of r' ∙ en),
        (ap length_of r' ∙ le),
        (
          z ++ bytes b ∷ [],
          z',
          all_bytes-append z (bytes b ∷ [])
              ∙ ap (λ (x : Text). all_bytes z ++ x) (append-nil b)
              ∙ ap (λ (x : Text). x ++ b) t
              ∙ sym o,
        ),
      ))
