-- ===== src/HttpCache/Gzip.antt =====
-- The compressing writer against the response without it (api/httpcache.go).
use aleart_hub.Base.{
  ◌≡◌, ◌⊎◌, inl, inr, refl, sym, ap, subst, ◌∙◌, true, false, none, some, List, [], ◌∷◌, ◌++◌,
  append-nil, arith, Text, text,
}
use aleart_hub.HttpCache.{
  Response, Chunk, flushed, GzipWriter, Call, sets, writes_header, writes, flushes, send_status,
  write_below, new_writer, decide, flush_below, settle, flush_settled, flush, close_settled, call,
  call_below, close, calls, calls_below,
}
use aleart_hub.HttpCache.Tracks.{
  status_of, is_sent, encoding_of, length_of, all_bytes, all_bytes-append, IsHeld, IsPlain,
  IsZipped, Tracks, send_lem, decide-Tracks, sets-Tracks, header-Tracks, sent_again, write_sent,
  writes-Tracks,
}

-- The writer has decided.
abbrev IsSettled : Response → GzipWriter → Type 0
IsSettled r w = IsPlain r w ⊎ IsZipped r w

is_sent-settled : (r : Response) (w : GzipWriter) → IsSettled r w → is_sent r ≡ true
is_sent-settled r w (inl (d, z, s, up, st, t)) = up
is_sent-settled r w (inr (d, s, up, st, e, en, le, more)) = up

is_decided : (r : Response) (w : GzipWriter) → IsSettled r w → w.decided ≡ true
is_decided r w (inl h) = h.0
is_decided r w (inr h) = h.0

settle_decided : (w : GzipWriter) → w.decided ≡ true → settle w ≡ w
unfolding settle
settle_decided w d = ground arith

settle_open : (w : GzipWriter) → w.decided ≡ false → settle w ≡ decide w
unfolding settle
settle_open w d = ground arith

settle-IsSettled :
    (r : Response) (w : GzipWriter) → Tracks r w → IsSettled (send_status 200 r) (settle w)
settle-IsSettled r w (inl h) =
    subst (IsSettled (send_status 200 r)) (sym (settle_open w h.0)) (decide-Tracks r w h)
settle-IsSettled r w (inr h) =
    let same = sent_again r (is_sent-settled r w h) in
    subst (λ (x : Response). IsSettled x (settle w)) (sym same)
      (subst (IsSettled r) (sym (settle_decided w (is_decided r w h))) h)

flush_settled-IsSettled :
    (r : Response) (w : GzipWriter) → IsSettled r w → IsSettled r (flush_settled w)
unfolding flush_settled flush_below send_status
flush_settled-IsSettled r w (inl (d, z, s, up, st, t)) =
    inl (ground arith, ground arith, ground arith, up, ground arith, ground arith)
flush_settled-IsSettled r w (inr (d, s, up, st, e, en, le, (z, q, t))) = inr (
  ground arith,
  ground arith,
  up,
  ground arith,
  ground arith,
  ground arith,
  ground arith,
  (
    z ++ flushed ∷ [],
    ground arith,
    all_bytes-append z (flushed ∷ []) ∙ append-nil (all_bytes z) ∙ t,
  ),
)

flushes-Tracks : (r : Response) (w : GzipWriter) → Tracks r w → Tracks (flush_below r) (flush w)
unfolding flush_below flush
flushes-Tracks r w h =
    inr (flush_settled-IsSettled (send_status 200 r) (settle w) (settle-IsSettled r w h))

call-Tracks :
    (c : Call) (r : Response) (w : GzipWriter) → Tracks r w → Tracks (call_below c r) (call c w)
unfolding call call_below
call-Tracks (sets f) r w h = sets-Tracks f r w h
call-Tracks (writes_header status) r w h = header-Tracks status r w h
call-Tracks (writes b) r w h = writes-Tracks b r w h
call-Tracks flushes r w h = flushes-Tracks r w h

calls-Tracks :
    (cs : List Call) (r : Response) (w : GzipWriter)
    → Tracks r w
    → Tracks (calls_below cs r) (calls cs w)
calls-Tracks [] r w h = h
calls-Tracks (c ∷ cs) r w h = calls-Tracks cs (call_below c r) (call c w) (call-Tracks c r w h)

-- The response that a client can undo to `r`: the same bytes, or marked as compressed, without a
-- length, and the compressor's answer to these bytes.
abbrev pub IsSame : (List Chunk → Text) → Response → Response → Type 0
IsSame gzip r z =
    (status_of z ≡ status_of r)
    × ((z.body ≡ r.body)
        ⊎ (encoding_of z ≡ text "gzip")
          × (length_of z ≡ [])
          × ((cs : List Chunk) × (z.body ≡ gzip cs) × (all_bytes cs ≡ r.body)))

kept_encoding :
    (b : Text) (r : Response) → is_sent r ≡ true → encoding_of (write_below b r) ≡ encoding_of r
unfolding write_below send_status
kept_encoding b r up = ground arith

kept_length :
    (b : Text) (r : Response) → is_sent r ≡ true → length_of (write_below b r) ≡ length_of r
unfolding write_below send_status
kept_length b r up = ground arith

close_zipped :
    (gzip : List Chunk → Text) (w : GzipWriter) (z : List Chunk)
    → w.gz ≡ some z
    → close_settled gzip w ≡ write_below (gzip z) w.response
unfolding close_settled
close_zipped gzip w z q = ground arith

close-IsSame :
    (gzip : List Chunk → Text) (r : Response) (w : GzipWriter)
    → IsSettled r w
    → IsSame gzip r (close_settled gzip w)
unfolding close_settled
close-IsSame gzip r w (inl (d, z, s, up, st, t)) = (ground arith, inl (ground arith))
close-IsSame gzip r w (inr (d, s, up, st, e, en, le, (z, q, t))) =
    let (a, f, o) = write_sent (gzip z) w.response s in
    let shut = close_zipped gzip w z q in
    (
      ap status_of shut ∙ f ∙ st,
      inr (
        ap encoding_of shut ∙ kept_encoding (gzip z) w.response s ∙ en,
        ap length_of shut ∙ kept_length (gzip z) w.response s ∙ le,
        (z, ap (λ (x : Response). x.body) shut ∙ o ∙ ap (λ (x : Text). x ++ gzip z) e, t),
      ),
    )

-- A handler that is run with the compressing writer, whatever it sets, writes and flushes in whatever
-- order, on a response to which nothing was sent: the client gets the status that the handler alone
-- would have given, and either the same body, or a body marked as gzip, without a Content-Length, that
-- is what the compressor makes of exactly the bytes of that body.
pub close-calls :
    (gzip : List Chunk → Text) (cs : List Call) (r : Response)
    → r.sent ≡ none
    → r.body ≡ []
    → IsSame gzip (calls_below cs r) (close gzip (calls cs (new_writer r)))
unfolding close new_writer
close-calls gzip cs r s b =
    let plain = calls_below cs r in
    let start : IsHeld r (new_writer r) = (refl, refl, s, b, b, ground arith, ground arith) in
    let end =
      settle-IsSettled plain (calls cs (new_writer r))
        (calls-Tracks cs r (new_writer r) (inl start)) in
    let (st, up, body) = send_lem plain in
    let (e, same) =
      close-IsSame gzip (send_status 200 plain) (settle (calls cs (new_writer r))) end in
    (
      e ∙ st,
      elim same [
        | inl t ↦ inl (t ∙ body)
        | inr (en, le, (z, q, t)) ↦ inr (en, le, (z, q, t ∙ body))
      ],
    )
