-- ===== src/Secrets/Restart.antt =====
-- What survives a restart of the server (main.go, secretbox.go).
use aleart_hub.Base.{
  false, ◌≡◌, ◌≢◌, refl, sym, ◌∙◌, ap, Bool, true, none, some, [], ◌∷◌, ◌++◌, arith, ◌==◌, nat_eq,
  text_eq, text_eqb, text_eqb_iff, some-injective, length, length-append, take, drop, Text, text,
  trim_space, Option-cases, Bool-cases, inl, inr, ge→ltb,
}
use aleart_hub.Secrets.{
  Codec, Disk, decoded, read_file, Write, written, failed, write_file, generate, generate_keys,
  load_or_gen, load_or_gen_kek, load_or_gen_keys, Gcm, seal, open_box,
}

take-append : (xs ys : Text) → take (length xs) (xs ++ ys) ≡ xs
take-append [] ys = refl
take-append (x ∷ xs) ys = ap (λ r. x ∷ r) (take-append xs ys)

drop-append : (xs ys : Text) → drop (length xs) (xs ++ ys) ≡ ys
drop-append [] ys = refl
drop-append (x ∷ xs) ys = drop-append xs ys

-- Base64 is read back, also after the clean-up.
abbrev pub IsReadBack : Codec → Type 0
IsReadBack c = (t : Text) → c.std_decode (trim_space (c.std_encode t)) ≡ some t

-- A ciphertext decrypts under its key and nonce.
abbrev pub IsInverse : Gcm → Type 0
IsInverse g = (key nonce t : Text) → g.decrypt key nonce (g.encrypt key nonce t) ≡ some t

opened :
    (g : Gcm) (kek nonce plaintext : Text)
    → IsInverse g
    → length kek ≡ 32
    → length nonce ≡ g.nonce_size
    → (ct : Text) × (seal g kek nonce plaintext ≡ some ct) × (open_box g kek ct ≡ some plaintext)
unfolding seal open_box
opened g kek nonce plaintext inverse size fits =
    let ct = g.encrypt kek nonce plaintext in
    (
      nonce ++ ct,
      rw size refl,
      rw
          (
            size,
            ge→ltb (length (nonce ++ ct)) g.nonce_size
                (omega (arith, fits, length-append nonce ct)),
            sym fits,
            take-append nonce ct,
            drop-append nonce ct,
          )
          (inverse kek nonce plaintext),
    )

was_read :
    (reads : Bool) (disk : Disk) (path body : Text)
    → read_file reads disk path ≡ some body
    → disk path ≡ some body
was_read true disk path body e = e
was_read false disk path body e = absurd (ground (arith, e))

was_decoded :
    (c : Codec) (reads : Bool) (disk : Disk) (path raw : Text)
    → decoded c (read_file reads disk path) ≡ some raw
    → decoded c (disk path) ≡ some raw
was_decoded c true disk path raw e = e
was_decoded c false disk path raw e = absurd (ground (arith, e))

module _ (c : Codec) (path : Text) (usable : Text → Bool) (laws : IsReadBack c) where
  loaded :
      (disk : Disk) (raw fresh : Text) (w : Write)
      → decoded c (disk path) ≡ some raw
      → usable raw ≡ true
      → load_or_gen c path usable true fresh w disk ≡ (disk, some raw)
  unfolding load_or_gen
  loaded disk raw fresh w e ok = rw (load_or_gen, e, ok) refl

  generated :
      (disk : Disk) (fresh : Text)
      → usable fresh ≡ true
      → decoded c ((generate c path fresh written disk).0 path) ≡ some fresh
  unfolding generate write_file
  generated disk fresh ok = rw ((text_eqb_iff path path).1 refl) (laws fresh)

  -- Loading with a disk that takes writes gives a usable key, which a second load gives again.
  kept :
      (reads : Bool) (disk : Disk) (fresh : Text)
      → usable fresh ≡ true
      → let (disk', key) = load_or_gen c path usable reads fresh written disk in
        (k : Text) × (key ≡ some k) × (usable k ≡ true) × (decoded c (disk' path) ≡ some k)
  unfolding load_or_gen generate write_file
  kept reads disk fresh ok = elim (Option-cases (decoded c (read_file reads disk path))) [
    | inl none_there ↦ rw (load_or_gen, none_there) (fresh, refl, ok, generated disk fresh ok)
    | inr (raw, there) ↦ elim (Bool-cases (usable raw)) [
      | inl good ↦
          rw (load_or_gen, there, good) (raw, refl, good, was_decoded c reads disk path raw there)
      | inr bad ↦ rw (load_or_gen, there, bad) (fresh, refl, ok, generated disk fresh ok)
    ]
  ]

-- The key that seals secrets survives a restart: with a disk that takes the write the first load
-- gives a key, under which Seal gives a ciphertext; a later load that can read the file gives that key again and changes nothing,
-- and Open gives the plaintext back. Base64 is read back, AES-GCM decrypts what it encrypted, and the
-- random key and nonce have their sizes.
pub sealed_survives :
    (c : Codec) (g : Gcm) (dir fresh fresh' nonce plaintext : Text) (w : Write) (reads : Bool)
    (disk : Disk)
    → IsReadBack c
    → IsInverse g
    → length fresh ≡ 32
    → length nonce ≡ g.nonce_size
    → (kek ct : Text) × ((load_or_gen_kek c dir reads fresh written disk).1 ≡ some kek)
      × (seal g kek nonce plaintext ≡ some ct)
      × (load_or_gen_kek c dir true fresh' w (load_or_gen_kek c dir reads fresh written disk).0
          ≡ ((load_or_gen_kek c dir reads fresh written disk).0, some kek))
      × (open_box g kek ct ≡ some plaintext)
unfolding load_or_gen_kek
sealed_survives c g dir fresh fresh' nonce plaintext w reads disk laws inverse size fits =
    let sized = λ (raw : Text). length raw == 32 in
    let path = c.join_path dir (text "kek") in
    let (kek, e, good, there) = kept c path sized laws reads disk fresh (ground (arith, size)) in
    let (ct, sealed, clear) = opened g kek nonce plaintext inverse (ground (arith, good)) fits in
    (kek, ct, e, sealed, loaded c path sized laws _ kek fresh' w there good, clear)

-- Once both files are written, the private key stands under its path.
written_keys :
    (c : Codec) (priv_path pub_path fresh : Text) (w v : Write) (disk : Disk) (keys : Text × Text)
    → pub_path ≢ priv_path
    → (generate_keys c priv_path pub_path fresh w v disk).1 ≡ some keys
    → ((generate_keys c priv_path pub_path fresh w v disk).0 priv_path ≡ some (c.std_encode fresh))
      × ((fresh, c.raw_url_encode (c.public_key fresh)) ≡ keys)
unfolding generate_keys write_file
written_keys c priv_path pub_path fresh (failed left) v disk keys apart e =
    absurd (ground (arith, e))
written_keys c priv_path pub_path fresh written (failed left) disk keys apart e =
    absurd (ground (arith, e))
written_keys c priv_path pub_path fresh written written disk keys apart e =
    let own = (text_eqb_iff priv_path priv_path).1 refl in
    elim (Bool-cases (text_eqb priv_path pub_path)) [
      | inl same ↦ absurd (apart (sym ((text_eqb_iff priv_path pub_path).0 same)))
      | inr other ↦ (rw (other, own) refl, some-injective _ _ e)
    ]

-- A file with a key of 64 bytes is loaded as it is.
signing_key_loaded :
    (c : Codec) (dir body raw fresh : Text) (w v : Write) (reads : Bool) (disk : Disk)
    → read_file reads disk (c.join_path dir (text "alerthub_ed25519.key")) ≡ some body
    → c.std_decode (trim_space body) ≡ some raw
    → length raw ≡ 64
    → load_or_gen_keys c dir reads fresh w v disk
      ≡ (disk, some (raw, c.raw_url_encode (c.public_key raw)))
unfolding load_or_gen_keys
signing_key_loaded c dir body raw fresh w v reads disk there decodes size =
    rw (load_or_gen_keys, there, decodes, size) refl

-- Where a load gave a key, the file of the private key holds it.
signing_key_on_disk :
    (c : Codec) (dir fresh : Text) (w v : Write) (reads : Bool) (disk : Disk) (keys : Text × Text)
    → IsReadBack c
    → length fresh ≡ 64
    → c.join_path dir (text "alerthub_ed25519.pub") ≢ c.join_path dir (text "alerthub_ed25519.key")
    → (load_or_gen_keys c dir reads fresh w v disk).1 ≡ some keys
    → (body raw : Text) × ((load_or_gen_keys c dir reads fresh w v disk).0
          (c.join_path dir (text "alerthub_ed25519.key"))
        ≡ some body)
      × (c.std_decode (trim_space body) ≡ some raw)
      × (length raw ≡ 64)
      × ((raw, c.raw_url_encode (c.public_key raw)) ≡ keys)
unfolding load_or_gen_keys
signing_key_on_disk c dir fresh w v reads disk keys laws size apart e =
    let priv_path = c.join_path dir (text "alerthub_ed25519.key") in
    let pub_path = c.join_path dir (text "alerthub_ed25519.pub") in
    elim (Option-cases (read_file reads disk priv_path)) [
      | inl missing ↦
          let made : load_or_gen_keys c dir reads fresh w v disk
              ≡ generate_keys c priv_path pub_path fresh w v disk =
            rw (load_or_gen_keys, missing) refl in
          let (there, same) =
            written_keys c priv_path pub_path fresh w v disk keys apart
              (ap (λ r. r.1) (sym made) ∙ e) in
          (c.std_encode fresh, fresh, ap (λ r. r.0 priv_path) made ∙ there, laws fresh, size, same)
      | inr (body, there) ↦ elim (Option-cases (c.std_decode (trim_space body))) [
        | inl garbled ↦
            let refused : load_or_gen_keys c dir reads fresh w v disk ≡ (disk, none) =
              rw (load_or_gen_keys, there, garbled) refl in
            absurd (ground (arith, ap (λ r. r.1) (sym refused) ∙ e))
        | inr (raw, decodes) ↦ elim (Bool-cases (length raw == 64)) [
          | inl right ↦
              let found =
                signing_key_loaded c dir body raw fresh w v reads disk there decodes
                  (ground (arith, right)) in
              (
                body,
                raw,
                ap (λ r. r.0 priv_path) found ∙ was_read reads disk priv_path body there,
                decodes,
                ground (arith, right),
                some-injective _ _ (ap (λ r. r.1) (sym found) ∙ e),
              )
          | inr wrong ↦
              let refused : load_or_gen_keys c dir reads fresh w v disk ≡ (disk, none) =
                rw (load_or_gen_keys, there, decodes, wrong) refl in
              absurd (ground (arith, ap (λ r. r.1) (sym refused) ∙ e))
        ]
      ]
    ]

-- The signing key survives a restart that can read its file: where a load gave a key, a later load
-- that can read the file gives the same key and the same public key, and leaves the disk as it
-- is, whatever it could write. Base64 is read back, a generated key has 64 bytes, and the two
-- files have two paths.
pub signing_key_stays :
    (c : Codec) (dir fresh fresh' : Text) (w v w' v' : Write) (reads : Bool) (disk : Disk)
    (keys : Text × Text)
    → IsReadBack c
    → length fresh ≡ 64
    → c.join_path dir (text "alerthub_ed25519.pub") ≢ c.join_path dir (text "alerthub_ed25519.key")
    → (load_or_gen_keys c dir reads fresh w v disk).1 ≡ some keys
    → load_or_gen_keys c dir true fresh' w' v' (load_or_gen_keys c dir reads fresh w v disk).0
      ≡ ((load_or_gen_keys c dir reads fresh w v disk).0, some keys)
signing_key_stays c dir fresh fresh' w v w' v' reads disk keys laws size apart e =
    let (body, raw, there, decodes, sized, same) =
      signing_key_on_disk c dir fresh w v reads disk keys laws size apart e in
    let after = (load_or_gen_keys c dir reads fresh w v disk).0 in
    signing_key_loaded c dir body raw fresh' w' v' true after there decodes sized
    ∙ ap (λ k. (after, some k)) same
