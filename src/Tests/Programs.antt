-- ===== src/Tests/Programs.antt =====
-- src/KadRSA.h and src/kad_node.cpp with keys that are numbers and addresses that are printed as a letter.
use kad.Common.{
  ℕ, ◌+◌, ◌≡◌, refl, Bool, true, false, Option, some, none, [], ◌∷◌, ltb, String, Bytes, Files,
}
use kad.Rsa.{KeyTools, KadRsa, done, save_keys, validate_keys, start_keys, try_load_keys, generated}
use kad.Rsa.Startup.{Codec, start_keys_again}

abbrev one_cell : Bytes → Option ℕ
one_cell (k ∷ []) = some k
one_cell _ = none

abbrev pub key_tools : KeyTools
key_tools = record {
  Public = ℕ;
  Private = ℕ;
  blank_public = 0;
  blank_private = 0;
  generate = λ r. some (r + 1, r + 2);
  valid_public = λ k. ltb 0 k;
  valid_private = λ k. ltb 0 k;
  encode_public = λ k. k ∷ [];
  encode_private = λ k. k ∷ [];
  decode_public = one_cell;
  decode_private = one_cell;
}

pub key_tools-Codec : Codec key_tools
key_tools-Codec = record { public_back = λ k. refl; private_back = λ k. refl }

abbrev pub keys : KadRsa key_tools
keys = record { private = 5; public = 6 }

abbrev pub nothing : Files
nothing name = none

abbrev pub anywhere : String → Bool
anywhere name = true

saved : (save_keys key_tools anywhere keys "a" "b" nothing).0 ≡ done keys
unfolding save_keys
saved = refl

started : (start_keys key_tools anywhere 4 false nothing).0 ≡ done keys
unfolding start_keys try_load_keys save_keys generated validate_keys
started = refl

start_keys_again_example :
    (validate_keys key_tools keys ≡ true)
    × (start_keys key_tools anywhere 8 false (start_keys key_tools anywhere 4 false nothing).1
        ≡ (done keys, (start_keys key_tools anywhere 4 false nothing).1))
start_keys_again_example =
    start_keys_again key_tools anywhere key_tools-Codec 4 8 nothing keys started
