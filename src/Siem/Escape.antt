-- ===== src/Siem/Escape.antt =====
-- The syslog line (siem/syslog.go): a collector that reads the structured data as RFC 5424 says gets
-- the values back, and no field can break the line.
use aleart_hub.Base.{
  ℕ, ◌+◌, ◌*◌, ◌≡◌, ◌≢◌, refl, ap, ◌∙◌, Bool, true, false, List, [], ◌∷◌, ◌++◌, map, Option, none,
  some, append_assoc, inl, inr, Bool-cases, arith, if◌then◌else◌, ◌==◌, nat_eq, Text, text, All,
  All-append, IsOneLine, newline, IsOneLine-has_byte, has_byte, itoa, itoa-ne,
}
use aleart_hub.Audit.{AuditEntry}
use aleart_hub.Siem.{
  spaced, is_special, escape_byte, sd_escape, param, severity_of, concat, structured_data,
  format_rfc5424,
}

abbrev pub prepend : ℕ → Option (Text × Text) → Option (Text × Text)
prepend c none = none
prepend c (some (s, t)) = some (c ∷ s, t)

-- A PARAM-VALUE of RFC 5424 up to its closing quote, and what follows it: after a backslash the next
-- byte is taken as it is, and a bare closing bracket is an error.
unfoldable pub read_value : Bool → Text → Option (Text × Text)
read_value escaped [] = none
read_value true (c ∷ s) = prepend c (read_value false s)
read_value false (c ∷ s) =
    let escaped = read_value true s in
    let rest = read_value false s in
    if c == b'"'
    then some ([], s)
    else if c == b'\\'
    then escaped
    else if c == b']'
    then none
    else prepend c rest

read_byte :
    (c : ℕ) (s : Text) → read_value false (escape_byte c ++ s) ≡ prepend c (read_value false s)
unfolding read_value
read_byte c s = elim (Bool-cases (is_special c)) [
  | inl special ↦ rw special refl
  | inr plain ↦ rw plain (ground arith)
]

-- A collector that undoes the escapes reads each value up to its quote, exactly as it was but for
-- line breaks, which are spaces then; what follows the value is not touched.
pub sd_escape_lem :
    (s rest : Text) → read_value false (sd_escape s ++ b'"' ∷ rest) ≡ some (map spaced s, rest)
unfolding sd_escape read_value
sd_escape_lem [] rest = refl
sd_escape_lem (c ∷ s) rest =
    ap (read_value false) (append_assoc (escape_byte (spaced c)) (sd_escape s) (b'"' ∷ rest))
    ∙ read_byte (spaced c) (sd_escape s ++ b'"' ∷ rest)
    ∙ ap (prepend (spaced c)) (sd_escape_lem s rest)

-- What IsOneLine asks of each byte.
abbrev IsNoBreak : ℕ → Type 0
IsNoBreak c = c ≢ newline

escape_byte-IsOneLine : (c : ℕ) → IsOneLine (escape_byte (spaced c))
escape_byte-IsOneLine c =
    let ne : spaced c ≢ newline = ground arith in
    elim (Bool-cases (is_special (spaced c))) [
      | inl special ↦ rw special ((ground arith), (ne, tt))
      | inr plain ↦ rw plain (ne, tt)
    ]

sd_escape-IsOneLine : (s : Text) → IsOneLine (sd_escape s)
unfolding sd_escape
sd_escape-IsOneLine [] = tt
sd_escape-IsOneLine (c ∷ s) =
    All-append IsNoBreak (escape_byte (spaced c)) (sd_escape s) (escape_byte-IsOneLine c)
      (sd_escape-IsOneLine s)

itoa-IsOneLine : (n : ℕ) → IsOneLine (itoa n)
itoa-IsOneLine n = itoa-ne newline n (λ c d. ground arith)

concat-IsOneLine : (ts : List Text) → All IsOneLine ts → IsOneLine (concat ts)
unfolding concat
concat-IsOneLine [] h = tt
concat-IsOneLine (t ∷ ts) h = All-append IsNoBreak t (concat ts) h.0 (concat-IsOneLine ts h.1)

clean : (s : Text) → has_byte newline s ≡ false → IsOneLine s
clean s h = IsOneLine-has_byte s h

param-IsOneLine : (name value : Text) → has_byte newline name ≡ false → IsOneLine (param name value)
unfolding param
param-IsOneLine name value h =
    let named = All-append IsNoBreak name (text "=\"") (clean name h) (clean (text "=\"") refl) in
    let opened = All-append IsNoBreak _ (sd_escape value) named (sd_escape-IsOneLine value) in
    All-append IsNoBreak _ (text "\"") opened (clean (text "\"") refl)

structured_data-IsOneLine : (e : AuditEntry) → All IsOneLine (structured_data e)
unfolding structured_data
structured_data-IsOneLine e = (
  clean (text "[alerthub@0 ") refl,
  (
    param-IsOneLine (text "action") e.action refl,
    (
      clean (text " ") refl,
      (
        param-IsOneLine (text "actor_type") e.actor_type refl,
        (
          clean (text " ") refl,
          (
            param-IsOneLine (text "actor") e.actor_name refl,
            (
              clean (text " ") refl,
              (
                param-IsOneLine (text "target") e.target_id refl,
                (
                  clean (text " org=\"") refl,
                  (
                    itoa-IsOneLine e.org_id,
                    (
                      clean (text "\" ") refl,
                      (
                        param-IsOneLine (text "ip") e.ip refl,
                        (
                          clean (text " ") refl,
                          (param-IsOneLine (text "hash") e.hash refl, (clean (text "]") refl, tt)),
                        ),
                      ),
                    ),
                  ),
                ),
              ),
            ),
          ),
        ),
      ),
    ),
  ),
)

-- Where the printed time, the printed entry and the host name are one line each, the message is one
-- line and the line feed that ends it: no field of the entry, whatever bytes it has, begins a record
-- of its own.
pub format_rfc5424-IsOneLine :
    (format_time : ℕ → Text) (marshal : AuditEntry → Text) (host : Text) (e : AuditEntry)
    → IsOneLine (format_time e.at)
    → IsOneLine (marshal e)
    → IsOneLine host
    → (line : Text) × (format_rfc5424 format_time marshal host e ≡ line ++ newline ∷ [])
      × IsOneLine line
unfolding format_rfc5424
format_rfc5424-IsOneLine format_time marshal host e time body name = (
  _,
  refl,
  concat-IsOneLine _ (
    clean (text "<") refl,
    (
      itoa-IsOneLine (13 * 8 + severity_of e.action),
      (
        clean (text ">1 ") refl,
        (
          time,
          (
            clean (text " ") refl,
            (
              name,
              (
                clean (text " alerthub - ") refl,
                (
                  sd_escape-IsOneLine e.action,
                  (
                    clean (text " ") refl,
                    (
                      concat-IsOneLine (structured_data e) (structured_data-IsOneLine e),
                      (clean (text " ") refl, (body, tt)),
                    ),
                  ),
                ),
              ),
            ),
          ),
        ),
      ),
    ),
  ),
)
