-- ===== src/Rsa/Startup.antt =====
-- The keys that src/kad_node.cpp starts with.
use kad.Common.{
  ℕ, ◌≡◌, ◌≢◌, refl, sym, ap, subst, ◌∙◌, Bool, true, false, ◌&&◌, Option, none, some, Bool-cases,
  inl, inr,
}
use kad.Common.{String, Files, write_file, write_file_self, write_file_ne, name_ne}
use kad.Rsa.{
  KeyTools, KadRsa, Ending, done, fatal, thrown, validate_keys, save_keys, try_load_keys,
  start_keys, loaded,
}
use kad.Rsa.{keep_valid, exists, or_new, generated}

pub done_eq {ℓ} : {A : Type ℓ} {a b : A} → ◌≡◌ {A = Ending A} (done a) (done b) → a ≡ b
done_eq h = cc

pub thrown_ne {ℓ} : {A : Type ℓ} (a : A) → ◌≡◌ {A = Ending A} thrown (done a) → ⊥
thrown_ne a h = cc

pub fatal_ne {ℓ} : {A : Type ℓ} (a : A) → ◌≡◌ {A = Ending A} fatal (done a) → ⊥
fatal_ne a h = cc

-- Keys are read back as they were written.
pub record Codec (t : KeyTools) : Type 0 where
  pub public_back : (k : t.Public) → t.decode_public (t.encode_public k) ≡ some k
  pub private_back : (k : t.Private) → t.decode_private (t.encode_private k) ≡ some k

pub_ne_priv : ◌≢◌ {A = String} "key.pub" "key.priv"
pub_ne_priv = name_ne "key.pub" "key.priv" refl

module _ (t : KeyTools) (opens : String → Bool) where
  written : KadRsa t → String → String → Files → Files
  written keys priv_fn pub_fn files =
      write_file pub_fn (t.encode_public keys.public)
        (write_file priv_fn (t.encode_private keys.private) files)

  priv_written :
      (keys : KadRsa t) (priv_fn pub_fn : String) (files : Files)
      → pub_fn ≢ priv_fn
      → written keys priv_fn pub_fn files priv_fn ≡ some (t.encode_private keys.private)
  unfolding written
  priv_written keys priv_fn pub_fn files ne =
      write_file_ne pub_fn priv_fn _ _ ne ∙ write_file_self priv_fn _ files

  pub_written :
      (keys : KadRsa t) (priv_fn pub_fn : String) (files : Files)
      → written keys priv_fn pub_fn files pub_fn ≡ some (t.encode_public keys.public)
  unfolding written
  pub_written keys priv_fn pub_fn files = write_file_self pub_fn _ _

  save_keys-done :
      (keys k : KadRsa t) (priv_fn pub_fn : String) (files : Files)
      → (save_keys t opens keys priv_fn pub_fn files).0 ≡ done k
      → (k ≡ keys)
        × (save_keys t opens keys priv_fn pub_fn files
            ≡ (done keys, written keys priv_fn pub_fn files))
  unfolding save_keys written
  save_keys-done keys k priv_fn pub_fn files h = elim (Bool-cases (opens priv_fn)) [
    | inr no_priv ↦ absurd (thrown_ne k (rw no_priv at h))
    | inl priv ↦ elim (Bool-cases (opens pub_fn)) [
      | inr no_pub ↦ absurd (thrown_ne k (rw (priv, no_pub) at h))
      | inl pub' ↦ (done_eq (sym (rw (priv, pub') at h)), rw (priv, pub') refl)
    ]
  ]

  -- The key files hold valid keys.
  pub record Stored (keys : KadRsa t) (files : Files) : Type 0 where
    pub both : (exists t opens (files "key.priv") && exists t opens (files "key.pub")) ≡ true
    pub read : loaded t "key.priv" "key.pub" files ≡ some keys
    pub valid : validate_keys t keys ≡ true

  Stored-try_load_keys :
      (keys : KadRsa t) (files : Files)
      → Stored keys files
      → try_load_keys t opens files ≡ (done (some keys), files)
  unfolding try_load_keys
  Stored-try_load_keys keys files s = rw (s.both, s.read, s.valid) refl

  pub Stored-start_keys :
      (keys : KadRsa t) (later : ℕ) (files : Files)
      → Stored keys files
      → start_keys t opens later false files ≡ (done keys, files)
  unfolding start_keys
  Stored-start_keys keys later files s =
      ap (or_new t opens later) (Stored-try_load_keys keys files s)

  -- Only the key files matter.
  pub Stored-other :
      (keys : KadRsa t) (files files' : Files)
      → files' "key.priv" ≡ files "key.priv"
      → files' "key.pub" ≡ files "key.pub"
      → Stored keys files
      → Stored keys files'
  unfolding loaded
  Stored-other keys files files' p q s = record {
    both = rw (p, q) s.both;
    read = rw (p, q) s.read;
    valid = s.valid;
  }

  keep_valid-some :
      (o : Option (KadRsa t)) (files files' : Files) (k : KadRsa t)
      → keep_valid t opens o files ≡ (done (some k), files')
      → (files' ≡ files) × (o ≡ some k) × (validate_keys t k ≡ true)
  keep_valid-some none files files' k e = cc
  keep_valid-some (some k') files files' k e = elim (Bool-cases (validate_keys t k')) [
    | inl good ↦
        let e' = rw good at e in
        (cc e', cc e', subst (λ (x : KadRsa t). validate_keys t x ≡ true) (cc e') good)
    | inr bad ↦ let e' = rw bad at e in absurd (cc e')
  ]

  try_load-some :
      (files files' : Files) (k : KadRsa t)
      → try_load_keys t opens files ≡ (done (some k), files')
      → (files' ≡ files) × Stored k files
  unfolding try_load_keys
  try_load-some files files' k e =
      elim (Bool-cases (exists t opens (files "key.priv") && exists t opens (files "key.pub"))) [
        | inl both ↦
            let (same, read, valid) =
              keep_valid-some (loaded t "key.priv" "key.pub" files) files files' k (rw both at e) in
            (same, record { both = both; read = read; valid = valid })
        | inr missing ↦ let e' = rw missing at e in absurd (cc e')
      ]

  module _ (codec : Codec t) where
    loaded-written :
        (keys : KadRsa t) (priv_fn pub_fn : String) (files : Files)
        → pub_fn ≢ priv_fn
        → loaded t priv_fn pub_fn (written keys priv_fn pub_fn files) ≡ some keys
    unfolding loaded
    loaded-written keys priv_fn pub_fn files ne =
        rw (priv_written keys priv_fn pub_fn files ne, pub_written keys priv_fn pub_fn files)
          (rw (codec.private_back keys.private, codec.public_back keys.public) refl)

    -- If keys are read back as they were written and `SaveKeys`, of two different files, does not
    -- throw, then the keys are loaded from the files.
    pub loaded-save_keys :
        (keys k : KadRsa t) (priv_fn pub_fn : String) (files : Files)
        → pub_fn ≢ priv_fn
        → (save_keys t opens keys priv_fn pub_fn files).0 ≡ done k
        → loaded t priv_fn pub_fn (save_keys t opens keys priv_fn pub_fn files).1 ≡ some keys
    loaded-save_keys keys k priv_fn pub_fn files ne h =
        let (_, e) = save_keys-done keys k priv_fn pub_fn files h in
        rw e (loaded-written keys priv_fn pub_fn files ne)

    again :
        (keys : KadRsa t) (files : Files)
        → validate_keys t keys ≡ true
        → Stored keys (written keys "key.priv" "key.pub" files)
    again keys files valid = record {
      both =
          rw
            (
              priv_written keys "key.priv" "key.pub" files pub_ne_priv,
              pub_written keys "key.priv" "key.pub" files,
            )
            refl;
      read = loaded-written keys "key.priv" "key.pub" files pub_ne_priv;
      valid = valid;
    }

    kept :
        (random : ℕ) (files : Files) (r : Ending (Option (KadRsa t)) × Files) (keys : KadRsa t)
        → try_load_keys t opens files ≡ r
        → (or_new t opens random r).0 ≡ done keys
        → Stored keys (or_new t opens random r).1
    kept random files (fatal, files') keys e h = absurd (fatal_ne keys h)
    kept random files (thrown, files') keys e h = absurd (thrown_ne keys h)
    kept random files (done (some k), files') keys e h =
        let (same, s) = try_load-some files files' k e in
        subst (Stored keys) (sym same) (subst (λ (x : KadRsa t). Stored x files) (done_eq h) s)
    kept random files (done none, files') keys e h =
        elim (Bool-cases (validate_keys t (generated t random))) [
          | inr bad ↦ absurd (fatal_ne keys (rw bad at h))
          | inl good ↦
              let (k_eq, wrote) =
                save_keys-done (generated t random) keys "key.priv" "key.pub" files'
                  (rw good at h) in
              rw (good, wrote)
                (subst
                  (λ (x : KadRsa t).
                    Stored x (written (generated t random) "key.priv" "key.pub" files'))
                  (sym k_eq) (again (generated t random) files' good))
        ]

    pub start_keys-Stored :
        (random : ℕ) (files : Files) (keys : KadRsa t)
        → (start_keys t opens random false files).0 ≡ done keys
        → Stored keys (start_keys t opens random false files).1
    unfolding start_keys
    start_keys-Stored random files keys h =
        kept random files (try_load_keys t opens files) keys refl h

    -- If keys are read back as they were written, and a start that is not temporary ends with
    -- keys, then the keys are valid, and a later start on the files that the first one left ends
    -- with the same keys and changes no file.
    pub start_keys_again :
        (random later : ℕ) (files : Files) (keys : KadRsa t)
        → (start_keys t opens random false files).0 ≡ done keys
        → let files' = (start_keys t opens random false files).1 in
          (validate_keys t keys ≡ true)
          × (start_keys t opens later false files' ≡ (done keys, files'))
    start_keys_again random later files keys h =
        let s = start_keys-Stored random files keys h in (s.valid, Stored-start_keys keys later _ s)
