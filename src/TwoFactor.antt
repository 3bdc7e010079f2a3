-- ===== src/TwoFactor.antt =====
-- server/internal/twofa/twofa.go and store/twofa.go: the second factor of an account, a time-based
-- code or a recovery code that works once. TOTP, SHA-256 and the secret box are parameters, read at
-- one instant; random values are arguments.
pub mod Recovery
pub mod Rows
mod Tests
use aleart_hub.Base.{
  ℕ, Bool, true, false, ◌||◌, not, Option, none, some, List, [], ◌∷◌, ◌++◌, map, if◌then◌else◌,
  ◌==◌, nat_eq, text_eq, nat_eqb, Text, trim_space, join, newline,
}

pub record Totp : Type 0 where
  pub secret_enc : Text
  pub recovery : Text
  pub enabled : Bool

-- The table user_totp, by the id of the user.
abbrev pub Totps : Type 0
Totps = ℕ → Option Totp

-- totp.Validate(code, secret), the hash in hex, and what opens a sealed secret.
pub record Factor : Type 0 where
  pub validate : Text → Text → Bool
  pub sha256hex : Text → Text
  pub unseal : Text → Option Text

-- Whether the database reads the row, writes it and deletes it.
pub record Io : Type 0 where
  pub reads : Bool
  pub writes : Bool
  pub deletes : Bool

-- GetTOTP: an error, ErrNotFound or the row.
pub data Found : Type 0 where
  unreadable : Found
  absent : Found
  found : Totp → Found

unfoldable pub get_totp : Io → ℕ → Totps → Found
get_totp io uid t =
    if io.reads then elim (t uid) [ none ↦ absent | some r ↦ found r ] else unreadable

unfoldable pub set_row : ℕ → Option Totp → Totps → Totps
set_row uid r t j = if j == uid then r else t j

-- UpsertTOTPPending
unfoldable pub upsert_totp_pending : Io → ℕ → Text → Totps → Totps × Bool
upsert_totp_pending io uid enc t =
    if io.writes
    then (set_row uid (some (record { secret_enc = enc; recovery = []; enabled = false })) t, true)
    else (t, false)

-- EnableTOTP: an UPDATE, so that a user without a row gets none.
unfoldable pub enable_totp : Io → ℕ → Text → Totps → Totps × Bool
enable_totp io uid codes t =
    if io.writes
    then elim (t uid) [
      | none ↦ (t, true)
      | some r ↦ (set_row uid (some (record r { enabled = true; recovery = codes })) t, true)
    ]
    else (t, false)

-- SetTOTPRecovery; the caller ignores its error.
unfoldable pub set_totp_recovery : Io → ℕ → Text → Totps → Totps
set_totp_recovery io uid codes t =
    if io.writes
    then elim (t uid) [ none ↦ t | some r ↦ set_row uid (some (record r { recovery = codes })) t ]
    else t

-- Status: no value on an error of the database.
unfoldable pub status : Io → ℕ → Totps → Option Bool
status io uid t = elim (get_totp io uid t) [
  | unreadable ↦ none
  | absent ↦ some false
  | found r ↦ some r.enabled
]

-- A generated key with its secret sealed, or an error of either.
pub record Generated : Type 0 where
  pub url : Text
  pub secret : Text
  pub sealed : Text

-- Begin
unfoldable pub begin : Io → Option Generated → ℕ → Totps → Totps × Option (Text × Text)
begin io none uid t = (t, none)
begin io (some g) uid t =
    let (t', done) = upsert_totp_pending io uid g.sealed t in
    (t', if done then some (g.url, g.secret) else none)

unfoldable pub hash_code : Factor → Text → Text
hash_code f c = f.sha256hex (trim_space c)

-- The private `secret`: the stored secret, opened.
unfoldable pub secret_of : Factor → Io → ℕ → Totps → Option Text
secret_of f io uid t = elim (get_totp io uid t) [
  | unreadable ↦ none
  | absent ↦ none
  | found r ↦ f.unseal r.secret_enc
]

-- Enable, with the codes that genRecovery(10) draws.
unfoldable pub enable : Factor → Io → List Text → ℕ → Text → Totps → Totps × Option (List Text)
enable f io codes uid code t = elim (secret_of f io uid t) [
  | none ↦ (t, none)
  | some secret ↦
      let (t', done) = enable_totp io uid (join newline (map (hash_code f) codes)) t in
      if f.validate code secret then (t', if done then some codes else none) else (t, none)
]

-- splitNonEmpty keeps a part unless it is empty.
unfoldable pub close_part : Text → List Text → List Text
close_part [] rest = rest
close_part (c ∷ part) rest = (c ∷ part) ∷ rest

-- The part up to the first line feed, and the parts after it that are not empty.
unfoldable pub split_lines : Text → Text × List Text
split_lines [] = ([], [])
split_lines (c ∷ s) =
    let (part, rest) = split_lines s in
    if c == newline then ([], close_part part rest) else (c ∷ part, rest)

unfoldable pub split_non_empty : Text → List Text
split_non_empty s = let (part, rest) = split_lines s in close_part part rest

-- The list without its first element equal to `want`, if it has one.
unfoldable pub consume : Text → List Text → Option (List Text)
consume want [] = none
consume want (h ∷ hs) =
    let rest = consume want hs in
    if h == want then some hs else elim rest [ none ↦ none | some left ↦ some (h ∷ left) ]

-- `err == nil && totp.Validate(code, secret)`
unfoldable pub valid_code : Factor → Totp → Text → Bool
valid_code f r code = elim (f.unseal r.secret_enc) [ none ↦ false | some s ↦ f.validate code s ]

-- The loop of VerifyLogin over the recovery codes.
unfoldable pub use_recovery : Io → ℕ → Option (List Text) → Totps → Totps × Bool
use_recovery io uid none t = (t, false)
use_recovery io uid (some left) t = (set_totp_recovery io uid (join newline left) t, true)

-- VerifyLogin for a row that is enabled.
unfoldable pub accept : Factor → Io → ℕ → Text → Totp → Totps → Totps × Bool
accept f io uid code r t =
    let used = use_recovery io uid (consume (hash_code f code) (split_non_empty r.recovery)) t in
    if valid_code f r code then (t, true) else used

-- VerifyLogin
unfoldable pub verify_login : Factor → Io → ℕ → Text → Totps → Totps × Bool
verify_login f io uid code t = elim (get_totp io uid t) [
  | unreadable ↦ (t, false)
  | absent ↦ (t, false)
  | found r ↦ if r.enabled then accept f io uid code r t else (t, false)
]

-- Disable
unfoldable pub disable : Factor → Io → ℕ → Text → Totps → Totps × Bool
disable f io uid code t =
    let (t', accepted) = verify_login f io uid code t in
    if accepted
    then (if io.deletes then (set_row uid none t', true) else (t', false))
    else (t', false)
