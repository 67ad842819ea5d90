-- ===== src/Rsa.antt =====
-- src/KadRSA.h: the pair of keys of a node, in memory and in files, and the keys that src/kad_node.cpp
-- starts with. CryptoPP is not in the repository: what the class calls of it is the record `KeyTools`.
-- A file that cannot be read or written, and a key that cannot be decoded, throw; nothing catches.
pub mod Startup
use kad.Common.{ℕ, Bool, true, false, ◌&&◌, Option, none, some, List, if◌then◌else◌}
use kad.Common.{String, Bytes, Files, write_file, delete_file}

-- `blank_*` are keys that were not set. `generate` is given the state of the random generator, and
-- `none` is the `CryptoPP::Exception` that the constructor catches.
pub record KeyTools : Type 1 where
  pub Public : Type 0
  pub Private : Type 0
  pub blank_public : Public
  pub blank_private : Private
  pub generate : ℕ → Option (Private × Public)
  pub valid_public : Public → Bool
  pub valid_private : Private → Bool
  pub encode_public : Public → Bytes
  pub encode_private : Private → Bytes
  pub decode_public : Bytes → Option Public
  pub decode_private : Bytes → Option Private

pub record KadRsa (t : KeyTools) : Type 0 where
  pub private : t.Private
  pub public : t.Public

-- How a call ends: it returns, `X_FATAL` ends the program, or an exception does.
pub data Ending {ℓ} (A : Type ℓ) : Type ℓ where
  done : A → Ending A
  fatal : Ending A
  thrown : Ending A

module _ (t : KeyTools) where
  open t use {blank_public, blank_private, generate, valid_public, valid_private}
  open t use {encode_public, encode_private, decode_public, decode_private}

  -- `KadRSA()`.
  unfoldable pub generated : ℕ → KadRsa t
  generated random = elim (generate random) [
    | none ↦ record { private = blank_private; public = blank_public }
    | some (private, public) ↦ record { private = private; public = public }
  ]

  -- `DecodeFromFile`.
  abbrev pub decode_from {ℓ} : {A : Type ℓ} → (Bytes → Option A) → Option Bytes → Option A
  decode_from decode none = none
  decode_from decode (some bytes) = decode bytes

  abbrev pub private_from : Option Bytes → Option t.Private
  private_from file = decode_from decode_private file

  abbrev pub public_from : Option Bytes → Option t.Public
  public_from file = decode_from decode_public file

  -- `KadRSA(priv_fn, pub_fn)`.
  abbrev pub both_read : Option t.Private → Option t.Public → Option (KadRsa t)
  both_read none public = none
  both_read (some private) none = none
  both_read (some private) (some public) = some (record { private = private; public = public })

  unfoldable pub loaded : String → String → Files → Option (KadRsa t)
  loaded priv_fn pub_fn files =
      both_read (private_from (files priv_fn)) (public_from (files pub_fn))

  -- `ValidateKeys`: both keys are checked, whatever the first check says.
  unfoldable pub validate_keys : KadRsa t → Bool
  validate_keys keys =
      let result = if valid_private keys.private then true else false in
      if valid_public keys.public then result else false

  -- `PubEncode` and `PubDecode`.
  abbrev pub pub_encode : t.Public → Bytes
  pub_encode key = encode_public key

  abbrev pub pub_decode : Bytes → Option t.Public
  pub_decode bytes = decode_public bytes

  module _ (opens : String → Bool) where
    -- `EncodeToFile`, which opens the file and writes it; and what follows it.
    abbrev pub encode_to {ℓ} :
        {A : Type ℓ} → Bytes → String → (Files → Ending A × Files) → Files → Ending A × Files
    encode_to bytes name next files =
        if opens name then next (write_file name bytes files) else (thrown, files)

    abbrev pub private_to :
        t.Private → String → (Files → Ending (KadRsa t) × Files) → Files → Ending (KadRsa t) × Files
    private_to key name next files = encode_to (encode_private key) name next files

    abbrev pub public_to :
        t.Public → String → (Files → Ending (KadRsa t) × Files) → Files → Ending (KadRsa t) × Files
    public_to key name next files = encode_to (encode_public key) name next files

    -- `SaveKeys`.
    unfoldable pub save_keys : KadRsa t → String → String → Files → Ending (KadRsa t) × Files
    save_keys keys priv_fn pub_fn files =
        private_to keys.private priv_fn
          (public_to keys.public pub_fn (λ files'. (done keys, files'))) files

    -- `FileExists`.
    abbrev pub exists : Option Bytes → Bool
    exists none = false
    exists (some bytes) = true

    -- `TryLoadKeys` of src/kad_node.cpp, on the keys that were read.
    abbrev pub keep_valid : Option (KadRsa t) → Files → Ending (Option (KadRsa t)) × Files
    keep_valid none files = (thrown, files)
    keep_valid (some keys) files =
        if validate_keys keys
        then (done (some keys), files)
        else (done none, delete_file "key.pub" (delete_file "key.priv" files))

    unfoldable pub try_load_keys : Files → Ending (Option (KadRsa t)) × Files
    try_load_keys files =
        if exists (files "key.priv") && exists (files "key.pub")
        then keep_valid (loaded "key.priv" "key.pub" files) files
        else (done none, files)

    -- The keys of `main`, for good or for one run.
    abbrev pub new_keys : ℕ → Files → Ending (KadRsa t) × Files
    new_keys random files =
        let keys = generated random in
        if validate_keys keys then (done keys, files) else (fatal, files)

    abbrev pub saved_keys : Ending (KadRsa t) × Files → Ending (KadRsa t) × Files
    saved_keys (done keys, files) = save_keys keys "key.priv" "key.pub" files
    saved_keys (fatal, files) = (fatal, files)
    saved_keys (thrown, files) = (thrown, files)

    abbrev pub or_new : ℕ → Ending (Option (KadRsa t)) × Files → Ending (KadRsa t) × Files
    or_new random (done (some keys), files) = (done keys, files)
    or_new random (done none, files) = saved_keys (new_keys random files)
    or_new random (fatal, files) = (fatal, files)
    or_new random (thrown, files) = (thrown, files)

    unfoldable pub start_keys : ℕ → Bool → Files → Ending (KadRsa t) × Files
    start_keys random temporary files =
        if temporary then new_keys random files else or_new random (try_load_keys files)
