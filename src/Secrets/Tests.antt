-- ===== src/Secrets/Tests.antt =====
-- An empty keys directory, and a secret that is sealed before a restart.
use mathlib.Core.List.{reverse, reverse_aux, reverse-reverse}
use aleart_hub.Base.{
  true, ◌≡◌, ◌≢◌, refl, arith, ap, ◌∙◌, some, none, [], ◌∷◌, ◌++◌, take, drop, Text, text,
  text_eqb_iff, no_keys, trim_space, skip, space_len, space_len_back,
}
use aleart_hub.Secrets.{
  Codec, written, failed, write_file, generate_keys, load_or_gen_kek, load_or_gen_keys, Gcm, seal,
  open_box,
}
use aleart_hub.Secrets.Restart.{IsReadBack, IsInverse, sealed_survives, signing_key_stays}

abbrev frame : Text
frame = text "xxx"

-- A text between two frames, and what stands between them.
abbrev framed : Text → Text
framed t = frame ++ t ++ frame

abbrev unframed : Text → Text
unframed s = reverse (drop 3 (reverse (drop 3 s)))

abbrev toy_codec : Codec
toy_codec = record {
  join_path = λ dir file. dir ++ file;
  std_encode = framed;
  std_decode = λ s. some (unframed s);
  raw_url_encode = λ t. t;
  public_key = take 2;
}

abbrev toy_gcm : Gcm
toy_gcm = record {
  nonce_size = 2;
  encrypt = λ key nonce t. reverse t;
  decrypt = λ key nonce t. some (reverse t);
}

reverse_aux-append : (s t acc : Text) → reverse_aux (s ++ t) acc ≡ reverse_aux t (reverse_aux s acc)
reverse_aux-append [] t acc = refl
reverse_aux-append (c ∷ s) t acc = reverse_aux-append s t (c ∷ acc)

-- A frame ends the trimming at both ends.
not_trimmed : (t : Text) → trim_space (framed t) ≡ framed t
unfolding trim_space skip space_len space_len_back
not_trimmed t = rw (trim_space, reverse_aux-append t frame frame) (reverse-reverse (framed t))

unframed-framed : (t : Text) → unframed (framed t) ≡ t
unframed-framed t = rw (reverse_aux-append t frame []) (reverse-reverse t)

toy_codec-IsReadBack : IsReadBack toy_codec
toy_codec-IsReadBack t = ap some (ap unframed (not_trimmed t) ∙ unframed-framed t)

toy_gcm-IsInverse : IsInverse toy_gcm
toy_gcm-IsInverse key nonce t = ap some (reverse-reverse t)

abbrev key32 : Text
key32 = text "0123456789abcdef0123456789abcdef"

two_paths : text "keys/alerthub_ed25519.pub" ≢ text "keys/alerthub_ed25519.key"
two_paths e = absurd (
    ground (
      arith,
      (text_eqb_iff (text "keys/alerthub_ed25519.pub") (text "keys/alerthub_ed25519.key")).1 e,
    ))

sealed_survives_example :
    (kek ct : Text) × ((load_or_gen_kek toy_codec (text "keys/") true key32 written no_keys).1
      ≡ some kek)
    × (seal toy_gcm kek (text "nn") (text "totp") ≡ some ct)
    × (load_or_gen_kek toy_codec
          (text "keys/")
          true
          (text "other")
          (failed none)
          (load_or_gen_kek toy_codec (text "keys/") true key32 written no_keys).0
        ≡ ((load_or_gen_kek toy_codec (text "keys/") true key32 written no_keys).0, some kek))
    × (open_box toy_gcm kek ct ≡ some (text "totp"))
sealed_survives_example =
    sealed_survives toy_codec toy_gcm (text "keys/") key32 (text "other") (text "nn") (text "totp")
      (failed none) true no_keys toy_codec-IsReadBack toy_gcm-IsInverse refl refl

generated_pair :
    (load_or_gen_keys toy_codec (text "keys/") true (key32 ++ key32) written written no_keys).1
    ≡ some (key32 ++ key32, text "01")
unfolding load_or_gen_keys generate_keys write_file
generated_pair = refl

signing_key_stays_example :
    load_or_gen_keys toy_codec
      (text "keys/")
      true
      (text "other")
      (failed none)
      written
      (load_or_gen_keys toy_codec (text "keys/") true (key32 ++ key32) written written no_keys).0
    ≡ (
      (load_or_gen_keys toy_codec (text "keys/") true (key32 ++ key32) written written no_keys).0,
      some (key32 ++ key32, text "01"),
    )
signing_key_stays_example =
    signing_key_stays toy_codec (text "keys/") (key32 ++ key32) (text "other") written written
      (failed none) written true no_keys (key32 ++ key32, text "01") toy_codec-IsReadBack refl
      two_paths generated_pair
