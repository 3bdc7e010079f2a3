-- ===== src/Secrets.antt =====
-- The keys that server/main.go keeps in files, and server/internal/secretbox/secretbox.go. Base64,
-- Ed25519 and AES-GCM are parameters, random bytes are arguments and are drawn without an error; the
-- disk is what the files hold, by path, and a file that is there may fail to be read.
pub mod Restart
mod Tests
use aleart_hub.Base.{
  ℕ, ◌+◌, Bool, true, false, not, ◌&&◌, Option, none, some, ◌++◌, if◌then◌else◌, ◌==◌, nat_eq,
  text_eq, ltb, leb, length, take, drop, Text, text, Map, put, trim_space,
}

-- What lies outside: filepath.Join, encoding/base64 in its two alphabets, and the public key of an
-- Ed25519 key.
pub record Codec : Type 0 where
  pub join_path : Text → Text → Text
  pub std_encode : Text → Text
  pub std_decode : Text → Option Text
  pub raw_url_encode : Text → Text
  pub public_key : Text → Text

abbrev pub Disk : Type 0
Disk = Map Text

-- os.ReadFile, by whether a file that exists can be read.
abbrev pub read_file : Bool → Disk → Text → Option Text
read_file reads disk path = if reads then disk path else none

-- What the decoder gives of what was read.
abbrev pub decoded : Codec → Option Text → Option Text
decoded c none = none
decoded c (some body) = c.std_decode (trim_space body)

-- What os.MkdirAll and os.WriteFile come to: the file is written, or an error leaves of it what it
-- leaves.
pub data Write : Type 0 where
  written : Write
  failed : Option Text → Write

unfoldable pub write_file : Write → Text → Text → Disk → Disk × Bool
write_file written path body disk = (put disk path body, true)
write_file (failed left) path body disk = (λ p. if p == path then left else disk p, false)

-- The end of loadOrGenJWTSecret and loadOrGenKEK, where nothing usable is on disk.
unfoldable pub generate : Codec → Text → Text → Write → Disk → Disk × Option Text
generate c path fresh w disk =
    let (disk', done) = write_file w path (c.std_encode fresh) disk in
    (disk', if done then some fresh else none)

unfoldable pub load_or_gen :
    Codec → Text → (Text → Bool) → Bool → Text → Write → Disk → Disk × Option Text
load_or_gen c path usable reads fresh w disk = elim (decoded c (read_file reads disk path)) [
  | none ↦ generate c path fresh w disk
  | some raw ↦ if usable raw then (disk, some raw) else generate c path fresh w disk
]

-- loadOrGenJWTSecret
unfoldable pub load_or_gen_jwt_secret :
    Codec → Text → Bool → Text → Write → Disk → Disk × Option Text
load_or_gen_jwt_secret c dir =
    load_or_gen c (c.join_path dir (text "jwt_secret")) (λ raw. leb 32 (length raw))

-- loadOrGenKEK
unfoldable pub load_or_gen_kek : Codec → Text → Bool → Text → Write → Disk → Disk × Option Text
load_or_gen_kek c dir = load_or_gen c (c.join_path dir (text "kek")) (λ raw. length raw == 32)

-- The rest of loadOrGenKeys where there is no private key: both files are written, in order.
unfoldable pub generate_keys :
    Codec → Text → Text → Text → Write → Write → Disk → Disk × Option (Text × Text)
generate_keys c priv_path pub_path fresh w v disk =
    let pub_b64 = c.raw_url_encode (c.public_key fresh) in
    let (disk', done) = write_file w priv_path (c.std_encode fresh) disk in
    let (disk'', both) = write_file v pub_path pub_b64 disk' in
    if not done then (disk', none) else (disk'', if both then some (fresh, pub_b64) else none)

-- loadOrGenKeys: the private key and the text of the public one.
unfoldable pub load_or_gen_keys :
    Codec → Text → Bool → Text → Write → Write → Disk → Disk × Option (Text × Text)
load_or_gen_keys c dir reads fresh w v disk =
    let priv_path = c.join_path dir (text "alerthub_ed25519.key") in
    let pub_path = c.join_path dir (text "alerthub_ed25519.pub") in
    elim (read_file reads disk priv_path) [
      | none ↦ generate_keys c priv_path pub_path fresh w v disk
      | some body ↦ elim (c.std_decode (trim_space body)) [
        | none ↦ (disk, none)
        | some raw ↦ (
          disk,
          if length raw == 64 then some (raw, c.raw_url_encode (c.public_key raw)) else none,
        )
      ]
    ]

-- AES-GCM under a key of 32 bytes.
pub record Gcm : Type 0 where
  pub nonce_size : ℕ
  pub encrypt : Text → Text → Text → Text
  pub decrypt : Text → Text → Text → Option Text

-- Seal, by the random nonce.
unfoldable pub seal : Gcm → Text → Text → Text → Option Text
seal g kek nonce plaintext =
    if length kek == 32 then some (nonce ++ g.encrypt kek nonce plaintext) else none

-- Open
unfoldable pub open_box : Gcm → Text → Text → Option Text
open_box g kek ct =
    if not (length kek == 32)
    then none
    else if ltb (length ct) g.nonce_size
    then none
    else g.decrypt kek (take g.nonce_size ct) (drop g.nonce_size ct)
