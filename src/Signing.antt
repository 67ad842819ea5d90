-- ===== src/Signing.antt =====
-- src/signtool.cpp: a tool that signs a file with the master key, and checks or unpacks a signed file.
-- A signed file is a descriptor, a map with the checksum of the data, then its signature, then the data.
-- Files are read and written whole in a store of files by name; `opens` says which names can be opened
-- for writing. `Fatal` prints a message and ends the program: it is a way to stop, as is an exception
-- that nothing catches. CryptoPP and msgpack are not in the repository: what the tool calls of them
-- is the record `Tools`. Printing is not modelled.
pub mod Laws
pub mod Accepted
pub mod Check
pub mod RoundTrip
use kad.Common.{
  ℕ, ◌+◌, ◌≤◌, ◌<◌, ◌*◌, ◌≡◌, Bool, true, false, ◌&&◌, Option, none, some, List, [], ◌∷◌, ◌++◌,
}
use kad.Common.{length, take, drop, leb, ◌==◌, if◌then◌else◌, String, Bytes, Files, codes}
use kad.Common.{bytes_eq, name_eq, write_file}
use kad.Message.Format.{
  Object, Objects, nil, boolean, positive, negative, raw, array, mapping, end, item,
}

-- What the tool calls. A key is read (BER) and checked (`Validate`) apart; what cannot be read throws.
-- `sign` is given the state of the random generator. `unpack` gives an object and the bytes it took.
pub record Tools : Type 1 where
  pub Public : Type 0
  pub Private : Type 0
  pub read_public : Bytes → Option Public
  pub read_private : Bytes → Option Private
  pub valid_public : Public → Bool
  pub valid_private : Private → Bool
  pub verify : Public → Bytes → Bytes → Bool
  pub sign : Private → ℕ → Bytes → Bytes
  pub sha256 : Bytes → Bytes
  pub hex : Bytes → Bytes
  pub pack : Object → Bytes
  pub unpack : Bytes → Option (Object × ℕ)

pub data Stop : Type 0 where
  bad_public_key bad_private_key cannot_open invalid_format : Stop
  bad_signature bad_hash unknown_error signature_size invalid_arguments uncaught : Stop

pub data Outcome {ℓ} (A : Type ℓ) : Type ℓ where
  returned : A → Outcome A
  stopped : Stop → Outcome A

infixl 5 ◌>>=◌ ◌>>◌
abbrev pub ◌>>=◌ {ℓ κ} : {A : Type ℓ} {B : Type κ} → Outcome A → (A → Outcome B) → Outcome B
returned a >>= f = f a
stopped e >>= f = stopped e

abbrev pub ◌>>◌ {ℓ} : {B : Type ℓ} → Outcome (Unit {0}) → Outcome B → Outcome B
m >> k = m >>= λ _. k

abbrev pub or_stop {ℓ} : {A : Type ℓ} → Option A → Stop → Outcome A
or_stop none e = stopped e
or_stop (some a) e = returned a

abbrev pub need : Bool → Stop → Outcome (Unit {0})
need true e = returned tt
need false e = stopped e

abbrev pub is_map : Object → Bool
is_map (mapping os) = true
is_map _ = false

-- `convert` to a `std::string`, which throws `type_error` at another type.
abbrev pub as_string : Object → Option Bytes
as_string (raw b) = some b
as_string _ = none

-- `convert` to a `std::map<string, object>`: the keys and values in turn. A later key overwrites.
unfoldable pub as_map : Objects → Option (List (Bytes × Object))
as_map end = some []
as_map (item k end) = none
as_map (item k (item v os)) = elim (as_string k) [
  | none ↦ none
  | some key ↦ elim (as_map os) [ none ↦ none | some fields ↦ some ((key, v) ∷ fields) ]
]

abbrev pub fields_of : Object → Option (List (Bytes × Object))
fields_of (mapping os) = as_map os
fields_of _ = none

-- `descr[key]`; a key that is not there gets a new object, of type NIL.
unfoldable pub field : Bytes → List (Bytes × Object) → Object → Object
field key [] o = o
field key ((k, v) ∷ fields) o = field key fields (if bytes_eq k key then v else o)

module _ (t : Tools) where
  open t use {Public, Private, read_public, read_private, valid_public, valid_private}
  open t use {verify, sign, sha256, hex, pack, unpack}

  -- The two `DecodeFromFile`.
  unfoldable pub decode_public : Files → String → Option Public
  decode_public files name = elim (files name) [
    | none ↦ none
    | some bytes ↦ elim (read_public bytes) [
      | none ↦ none
      | some key ↦ if valid_public key then some key else none
    ]
  ]

  unfoldable pub decode_private : Files → String → Option Private
  decode_private files name = elim (files name) [
    | none ↦ none
    | some bytes ↦ elim (read_private bytes) [
      | none ↦ none
      | some key ↦ if valid_private key then some key else none
    ]
  ]

  -- `FileSize`, 0 for a file that cannot be opened.
  abbrev pub file_size : Files → String → ℕ
  file_size files name = elim (files name) [ none ↦ 0 | some bytes ↦ length bytes ]

  -- `VerifyFile` from the reading of the file on: the data of a file that passes every check.
  unfoldable pub check_bytes : Public → Bytes → Outcome Bytes
  check_bytes key bytes = do
    d ← or_stop (unpack bytes) unknown_error
    let descr_end = d.1
    s ← or_stop (unpack (drop descr_end bytes)) unknown_error
    let sign_end = descr_end + s.1
    need (leb 128 descr_end && sign_end == descr_end + 515 && is_map d.0) invalid_format
    signature ← or_stop (as_string s.0) invalid_format
    need (verify key (take descr_end bytes) signature) bad_signature
    fields ← or_stop (fields_of d.0) unknown_error
    sum ← or_stop (as_string (field (codes "sha256") fields nil)) unknown_error
    need (bytes_eq sum (hex (sha256 (drop sign_end bytes)))) bad_hash
    returned (drop sign_end bytes)

  unfoldable pub check_file : Files → String → Outcome Bytes
  check_file files fn_in = do
    key ← or_stop (decode_public files "master_key.pub") bad_public_key
    bytes ← or_stop (files fn_in) cannot_open
    check_bytes key bytes

  -- The map that `SignFile` packs.
  abbrev pub descriptor_items : Bytes → Bytes → ℕ → Bytes → Objects
  descriptor_items timestamp seed size sum =
      (item (raw (codes "ver")) (
        item (raw (codes "0.1.0")) (
          item (raw (codes "timestamp")) (
            item (raw timestamp) (
              item (raw (codes "seed")) (
                item (raw (hex seed)) (
                  item (raw (codes "size"))
                    (item (positive size) (item (raw (codes "sha256")) (item (raw sum) end))))))))))

  abbrev pub descriptor : Bytes → Bytes → ℕ → Bytes → Object
  descriptor timestamp seed size sum = mapping (descriptor_items timestamp seed size sum)

  module _ (timestamp seed : Bytes) (random : ℕ) where
    -- The descriptor and the signature, which are made before the output is opened.
    unfoldable pub signed_header : Files → String → Outcome Bytes
    signed_header files fn_in = do
      bytes ← or_stop (files fn_in) uncaught
      let descr = pack (descriptor timestamp seed (file_size files fn_in) (hex (sha256 bytes)))
      key ← or_stop (decode_private files "master_key.priv") bad_private_key
      let signature = sign key random descr
      need (length signature == 512) signature_size
      returned (descr ++ pack (raw signature))

  module _ (opens : String → Bool) where
    -- The end of `VerifyFile`; without `fnOut` nothing is written.
    abbrev pub unpack_to : Outcome Bytes → Option String → Files → Outcome Bool × Files
    unpack_to (stopped e) fn_out files = (stopped e, files)
    unpack_to (returned data') none files = (returned true, files)
    unpack_to (returned data') (some out) files =
        if opens out
        then (returned true, write_file out data' files)
        else (stopped cannot_open, files)

    unfoldable pub verify_file : String → Option String → Files → Outcome Bool × Files
    verify_file fn_in fn_out files = unpack_to (check_file files fn_in) fn_out files

    -- The end of `SignFile`: the output is opened first, and then empty, and the input is read from it
    -- if it is the same file.
    abbrev pub append_data : Bytes → Option Bytes → String → Files → Outcome Bool × Files
    append_data header none fn_out emptied = (stopped cannot_open, emptied)
    append_data header (some data') fn_out emptied =
        (returned true, write_file fn_out (header ++ data') emptied)

    abbrev pub write_signed : Outcome Bytes → String → String → Files → Outcome Bool × Files
    write_signed (stopped e) fn_in fn_out files = (stopped e, files)
    write_signed (returned header) fn_in fn_out files =
        let emptied = write_file fn_out [] files in
        if opens fn_out
        then append_data header (emptied fn_in) fn_out emptied
        else (stopped cannot_open, files)

    -- `-s` verifies what it has signed.
    abbrev pub verify_signed : Outcome Bool × Files → String → Outcome Bool × Files
    verify_signed (stopped e, files) fn = (stopped e, files)
    verify_signed (returned done, files) fn = verify_file fn none files

    module _ (timestamp seed : Bytes) (random : ℕ) where
      unfoldable pub sign_file : String → String → Files → Outcome Bool × Files
      sign_file fn_in fn_out files =
          write_signed (signed_header timestamp seed random files fn_in) fn_in fn_out files

      -- `main`, on the arguments after the program's name.
      unfoldable pub run : List String → Files → Outcome Bool × Files
      run (flag ∷ a ∷ b ∷ []) files =
          if name_eq "-s" flag
          then verify_signed (sign_file a b files) b
          else if name_eq "-u" flag
          then verify_file a (some b) files
          else (stopped invalid_arguments, files)
      run (flag ∷ a ∷ []) files =
          if name_eq "-v" flag then verify_file a none files else (stopped invalid_arguments, files)
      run _ files = (stopped invalid_arguments, files)
