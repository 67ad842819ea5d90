-- ===== src/Signing/RoundTrip.antt =====
-- A file that src/signtool.cpp has signed, verified and unpacked.
use mathlib.Core.List.{append_cancel_right}
use kad.Common.{
  ℕ, ◌≡◌, ◌≢◌, refl, sym, ap, subst, ◌∙◌, Bool, true, Option, some, none, [], ◌∷◌, ◌++◌,
}
use kad.Common.{length, String, Bytes, Files, write_file, write_file_self, write_file_ne}
use kad.Common.{bytes_eq, bytes_eq_refl, bytes_eq_ne, ==_iff}
use kad.Message.Format.{Object, raw}
use kad.Signing.Laws.{Laws, KeyPair}
use kad.Signing.{Tools, Outcome, returned, stopped, bad_hash, need, ◌>>◌, signed_header, sign_file}
use kad.Signing.{
  verify_file, unpack_to, check_file, check_bytes, file_size, decode_public, decode_private,
  descriptor, run,
}
use kad.Signing.Check.{descriptor_long, check_bytes-signed}

some_eq : {a b : Bytes} → ◌≡◌ {A = Option Bytes} (some a) (some b) → a ≡ b
some_eq h = cc

decode_public_kept :
    (t : Tools) (files' files : Files) (name : String)
    → files' name ≡ files name
    → decode_public t files' name ≡ decode_public t files name
unfolding decode_public
decode_public_kept t files' files name e = rw (e, decode_public) refl

-- The descriptor and the signature of a file.
abbrev pub header_of : (t : Tools) → t.Private → Bytes → Bytes → ℕ → Bytes → Bytes
header_of t private timestamp seed random bytes =
    let d : Object = descriptor t timestamp seed (length bytes) (t.hex (t.sha256 bytes)) in
    t.pack d ++ t.pack (raw (t.sign private random (t.pack d)))

module _ (t : Tools) (laws : Laws t) (private : t.Private) (public : t.Public)
    (pair : KeyPair t private public) (timestamp seed : Bytes) (random : ℕ)
    (seeded : length seed ≡ 16) where
  open t use {pack, hex, sha256, sign}

  header_lem :
      (files : Files) (fn_in : String) (bytes : Bytes)
      → files fn_in ≡ some bytes
      → decode_private t files "master_key.priv" ≡ some private
      → signed_header t timestamp seed random files fn_in
        ≡ returned (header_of t private timestamp seed random bytes)
  unfolding signed_header
  header_lem files fn_in bytes here key =
      let fits = (==_iff _ 512).1 (
        pair.signature_512 random
          (pack (descriptor t timestamp seed (length bytes) (hex (sha256 bytes))))) in
      let size : file_size t files fn_in ≡ length bytes = rw (here, file_size) refl in
      rw (here, size, key, fits) refl

  checked :
      (bytes data' : Bytes)
      → check_bytes t public (header_of t private timestamp seed random bytes ++ data')
        ≡ (need (bytes_eq (hex (sha256 bytes)) (hex (sha256 data'))) bad_hash >> returned data')
  checked bytes data' =
      let d : Object = descriptor t timestamp seed (length bytes) (hex (sha256 bytes)) in
      check_bytes-signed t laws public timestamp seed (hex (sha256 bytes))
        (sign private random (pack d)) data' (length bytes) (pair.signature_512 random (pack d))
        (descriptor_long t laws timestamp seed bytes (length bytes) seeded)
        (pair.verifies random (pack d))

  checked_file :
      (files : Files) (fn : String) (bytes data' : Bytes)
      → decode_public t files "master_key.pub" ≡ some public
      → files fn ≡ some (header_of t private timestamp seed random bytes ++ data')
      → check_file t files fn
        ≡ (need (bytes_eq (hex (sha256 bytes)) (hex (sha256 data'))) bad_hash >> returned data')
  unfolding check_file
  checked_file files fn bytes data' key here = rw (key, here) (checked bytes data')

  module _ (opens : String → Bool) (files : Files) (fn_in fn_out : String) (bytes : Bytes)
      (here : files fn_in ≡ some bytes) (can : opens fn_out ≡ true)
      (private_key : decode_private t files "master_key.priv" ≡ some private)
      (public_key : decode_public t files "master_key.pub" ≡ some public)
      (apart : fn_out ≢ "master_key.pub") where
    -- The files after `SignFile`, with the data that it read from its input.
    abbrev signed_files : Bytes → Files
    signed_files data' =
        write_file fn_out (header_of t private timestamp seed random bytes ++ data')
          (write_file fn_out [] files)

    sign_file_lem :
        (data' : Bytes)
        → write_file fn_out [] files fn_in ≡ some data'
        → sign_file t opens timestamp seed random fn_in fn_out files
          ≡ (returned true, signed_files data')
    unfolding sign_file
    sign_file_lem data' read = rw (header_lem files fn_in bytes here private_key, can, read) refl

    signed_checked :
        (data' : Bytes)
        → check_file t (signed_files data') fn_out
          ≡ (need (bytes_eq (hex (sha256 bytes)) (hex (sha256 data'))) bad_hash >> returned data')
    signed_checked data' =
        let kept : (name : String) → fn_out ≢ name → signed_files data' name ≡ files name =
          λ name ne. write_file_ne fn_out name _ _ ne ∙ write_file_ne fn_out name [] files ne in
        let key : decode_public t (signed_files data') "master_key.pub" ≡ some public =
          decode_public_kept t _ files "master_key.pub" (kept "master_key.pub" apart)
          ∙ public_key in
        checked_file (signed_files data') fn_out bytes data' key (write_file_self fn_out _ _)

    signed_ends :
        (data' : Bytes)
        → write_file fn_out [] files fn_in ≡ some data'
        → run t opens timestamp seed random ("-s" ∷ fn_in ∷ fn_out ∷ []) files
          ≡ unpack_to t opens
              (need (bytes_eq (hex (sha256 bytes)) (hex (sha256 data'))) bad_hash >> returned data')
              none
              (signed_files data')
    unfolding run verify_file
    signed_ends data' read = rw (sign_file_lem data' read) (rw (signed_checked data') refl)

    -- Signing, by its result.
    pub signs :
        fn_out ≢ fn_in
        → run t opens timestamp seed random ("-s" ∷ fn_in ∷ fn_out ∷ []) files
          ≡ (returned true, signed_files bytes)
    signs ne =
        signed_ends bytes (write_file_ne fn_out fn_in [] files ne ∙ here)
        ∙ rw (bytes_eq_refl (hex (sha256 bytes))) refl

    -- If the laws of `Laws` hold, the two master keys can be read from their files and are a pair,
    -- the seed has 16 bytes, the input can be read, the output is neither the input nor
    -- `master_key.pub`, and it and a third file can be opened: then `-s` signs the input and
    -- returns true, and `-u` of the signed file returns true and writes the bytes of the input to
    -- the third file.
    pub unpack-sign :
        (back : String)
        → fn_out ≢ fn_in
        → opens back ≡ true
        → let r = run t opens timestamp seed random ("-s" ∷ fn_in ∷ fn_out ∷ []) files in
          let r' = run t opens timestamp seed random ("-u" ∷ fn_out ∷ back ∷ []) r.1 in
          (r.0 ≡ returned true) × (r'.0 ≡ returned true) × (r'.1 back ≡ some bytes)
    unfolding run verify_file
    unpack-sign back ne can_back =
        let good = bytes_eq_refl (hex (sha256 bytes)) in
        let checks : check_file t (signed_files bytes) fn_out ≡ returned bytes =
          signed_checked bytes ∙ rw good refl in
        rw (signs ne)
          (refl, rw (checks, can_back) refl, rw (checks, can_back) (write_file_self back bytes _))

    -- If the laws of `Laws` hold, the two master keys can be read from their files and are a pair,
    -- the seed has 16 bytes, the input can be read, the output is neither the input nor
    -- `master_key.pub` and can be opened, and after `-s` the output has a header and then the data
    -- of the input: then `-u`, on files with the same public key where other data, with another
    -- checksum in hexadecimal, stand after that header, stops at the hash and writes nothing.
    pub altered_refused :
        (header data' : Bytes) (back : String) (files' : Files)
        → fn_out ≢ fn_in
        → (run t opens timestamp seed random ("-s" ∷ fn_in ∷ fn_out ∷ []) files).1 fn_out
          ≡ some (header ++ bytes)
        → files' fn_out ≡ some (header ++ data')
        → files' "master_key.pub" ≡ files "master_key.pub"
        → hex (sha256 bytes) ≢ hex (sha256 data')
        → run t opens timestamp seed random ("-u" ∷ fn_out ∷ back ∷ []) files'
          ≡ (stopped bad_hash, files')
    unfolding run verify_file
    altered_refused header data' back files' ne stored altered same_key differs =
        let whole : ◌≡◌ {A = Option Bytes} (some (header ++ bytes))
            (some (header_of t private timestamp seed random bytes ++ bytes)) =
          sym stored
          ∙ ap (λ (r : Outcome Bool × Files). r.1 fn_out) (signs ne)
          ∙ write_file_self fn_out _ _ in
        let same : header ≡ header_of t private timestamp seed random bytes =
          append_cancel_right _ _ bytes (some_eq whole) in
        let checks =
          checked_file files' fn_out bytes data'
            (decode_public_kept t files' files "master_key.pub" same_key ∙ public_key)
            (altered ∙ ap (λ (h : Bytes). some (h ++ data')) same) in
        rw (checks, bytes_eq_ne _ _ differs) refl

    -- If the laws of `Laws` hold, the two master keys can be read from their files and are a pair,
    -- the seed has 16 bytes, the input can be read, and its checksum is not that of no bytes: then
    -- `-s` with the input as its output, not `master_key.pub` and one that can be opened, stops at
    -- the hash, and the file has lost its data: the header is all that is left.
    pub sign_onto_itself :
        fn_out ≡ fn_in
        → hex (sha256 bytes) ≢ hex (sha256 [])
        → let r = run t opens timestamp seed random ("-s" ∷ fn_in ∷ fn_out ∷ []) files in
          (r.0 ≡ stopped bad_hash)
          × (r.1 fn_in ≡ some (header_of t private timestamp seed random bytes ++ []))
    sign_onto_itself same differs =
        let read : write_file fn_out [] files fn_in ≡ some [] =
          subst (λ (n : String). write_file fn_out [] files n ≡ some []) same
            (write_file_self fn_out [] files) in
        let ends : run t opens timestamp seed random ("-s" ∷ fn_in ∷ fn_out ∷ []) files
            ≡ (stopped bad_hash, signed_files []) =
          signed_ends [] read ∙ rw (bytes_eq_ne _ _ differs) refl in
        rw ends (
          refl,
          subst
              (λ (n : String).
                signed_files [] n ≡ some (header_of t private timestamp seed random bytes ++ []))
              same (write_file_self fn_out _ _),
        )
