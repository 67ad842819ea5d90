-- ===== src/Program/Identity.antt =====
-- What a run of src/kad_node.cpp leaves for the next one.
use kad.Common.{
  ℕ, ◌≡◌, ◌≢◌, refl, sym, ap, ◌∙◌, arith, Bool, true, false, Option, none, some, List, ◌++◌, length,
  ◌==◌,
}
use kad.Common.{String, Files, write_file_ne, name_ne, Bool-cases, inl, inr, [], ==_iff}
use kad.Config.{id_size}
use kad.NodeId.{KadId}
use kad.NodeId.Hash.{Digests, from_hash}
use kad.Contact.{empty}
use kad.Routing.{root}
use kad.Manager.{Manager, new_manager}
use kad.Manager.Named.{SameId, join-SameId}
use kad.Manager.Network.{Joining, join, leave}
use kad.Rsa.{KeyTools, KadRsa, Ending, done, fatal, thrown, start_keys}
use kad.Rsa.Startup.{Codec, Stored-other, Stored-start_keys, start_keys-Stored, fatal_ne, thrown_ne}
use kad.Program.{
  or_typed, local_id, Names, load_bsp, save_bsp, after_join, with_keys, left_files, run_node,
}
use kad.Program.Bootstrap.{Printed, looked_up, load-save_bsp}

ended_first {ℓ} :
    {A : Type ℓ} {a b : Ending A} {f g : Files}
    → ◌≡◌ {A = Option (Ending A × Files)} (some (a, f)) (some (b, g))
    → a ≡ b
ended_first h = cc

ended_eq {ℓ} :
    {A : Type ℓ} {a b : A} {f g : Files}
    → ◌≡◌ {A = Option (Ending A × Files)} (some (done a, f)) (some (done b, g))
    → (a ≡ b) × (f ≡ g)
ended_eq h = (cc, cc)

done_eq {ℓ} : {A : Type ℓ} {a b : A} → ◌≡◌ {A = Ending A} (done a) (done b) → a ≡ b
done_eq h = cc

module _ {ℓ} {Addr : Type ℓ} (names : Names Addr) (t : KeyTools) (codec : Codec t)
    (digests : Digests) (opens : String → Bool) (random : ℕ → ℕ) (typed : Addr)
    (wait : ℕ → Manager Addr → Manager Addr) (console : Manager Addr → Manager Addr) where
  -- What follows the start leaves the key files alone.
  left_files-key :
      (addrs : List Addr) (files : Files) (name : String)
      → ◌≢◌ {A = String} "bsp.cfg" name
      → left_files names t digests opens random typed wait console addrs files name ≡ files name
  unfolding save_bsp
  left_files-key addrs files name ne = elim (Bool-cases (length addrs == 0)) [
    | inl nothing ↦ rw nothing refl
    | inr some_left ↦ elim (Bool-cases (opens "bsp.cfg")) [
      | inl can ↦ rw (some_left, can) (write_file_ne "bsp.cfg" name _ files ne)
      | inr cannot ↦ rw (some_left, cannot) refl
    ]
  ]

  joined :
      (files files' : Files) (o : Option (Joining Addr)) (m : Manager Addr)
      → after_join names t digests opens random typed wait console files o ≡ some (done m, files')
      → (files' ≡ left_files names t digests opens random typed wait console (leave m) files)
        × (j : Joining Addr) × (o ≡ some j)
        × (m ≡ console j.manager)
  joined files files' none m e = absurd (cc e)
  joined files files' (some j) m e =
      let (m_eq, f_eq) = ended_eq e in
      (
        sym f_eq
            ∙ ap
                (λ (x : Manager Addr).
                  left_files names t digests opens random typed wait console (leave x) files)
                m_eq,
        j,
        refl,
        sym m_eq,
      )

  -- The node that follows the start, before it has joined.
  abbrev joining : ℕ → KadRsa t → Files → Option (Joining Addr)
  joining fuel keys files =
      join wait
        (or_typed names t digests opens random typed wait console
          (load_bsp names (files "bsp.cfg")))
        random fuel (new_manager (local_id names t digests opens random keys) root empty)

  ran :
      (fuel : ℕ) (r : Ending (KadRsa t) × Files) (files' : Files) (m : Manager Addr)
      → with_keys names t digests opens random typed wait console fuel r ≡ some (done m, files')
      → (keys : KadRsa t) × (r.0 ≡ done keys)
        × (files' ≡ left_files names t digests opens random typed wait console (leave m) r.1)
        × (j : Joining Addr) × (joining fuel keys r.1 ≡ some j)
        × (m ≡ console j.manager)
  ran fuel (fatal, files) files' m e = absurd (fatal_ne m (ended_first e))
  ran fuel (thrown, files) files' m e = absurd (thrown_ne m (ended_first e))
  ran fuel (done keys, files) files' m e =
      let (left, j, has_joined, m_eq) = joined files files' _ m e in
      (keys, refl, left, j, has_joined, m_eq)

  module _ (keeps_wait : (r : ℕ) (m : Manager Addr) → SameId m (wait r m))
      (keeps_console : (m : Manager Addr) → SameId m (console m)) where
    own_id :
        (fuel : ℕ) (keys : KadRsa t) (files : Files) (j : Joining Addr) (m : Manager Addr)
        → joining fuel keys files ≡ some j
        → m ≡ console j.manager
        → m.local ≡ local_id names t digests opens random keys
    own_id fuel keys files j m e m_eq =
        let good =
          join-SameId wait
            (or_typed names t digests opens random typed wait console
              (load_bsp names (files "bsp.cfg")))
            keeps_wait random fuel
            (new_manager (local_id names t digests opens random keys) root empty) in
        ap (λ (x : Manager Addr). x.local) m_eq ∙ keeps_console j.manager ∙ (rw e at good)

    -- If keys are read back as they were written, nothing that happens outside or is typed changes
    -- the id of a manager, a run of the node that is not temporary ends without an error, and so
    -- does a second one on the files that the first left: then the first had keys, a start on
    -- these files has the same keys and changes no file, the node's id is the hash of the public
    -- key, and the node of the second run has the same id.
    pub run_node_again :
        (fuel random_key fuel' later : ℕ) (files files' files'' : Files) (m m' : Manager Addr)
        → run_node names t digests opens random typed wait console fuel random_key false files
          ≡ some (done m, files')
        → run_node names t digests opens random typed wait console fuel' later false files'
          ≡ some (done m', files'')
        → (keys : KadRsa t) × ((start_keys t opens random_key false files).0 ≡ done keys)
          × (start_keys t opens later false files' ≡ (done keys, files'))
          × (from_hash digests id_size (t.encode_public keys.public) ≡ some m.local)
          × (m'.local ≡ m.local)
    unfolding run_node from_hash
    run_node_again fuel random_key fuel' later files files' files'' m m' e e' =
        let (keys, ended, left, j, has_joined, m_eq) =
          ran fuel (start_keys t opens random_key false files) files' m e in
        let s = start_keys-Stored t opens codec random_key files keys ended in
        let same = λ (name : String) (ne : ◌≢◌ {A = String} "bsp.cfg" name).
          ap (λ (f : Files). f name) left
          ∙ left_files-key (leave m) (start_keys t opens random_key false files).1 name ne in
        let s' =
          Stored-other t opens keys (start_keys t opens random_key false files).1 files'
            (same "key.priv" (name_ne "bsp.cfg" "key.priv" refl))
            (same "key.pub" (name_ne "bsp.cfg" "key.pub" refl)) s in
        let again = Stored-start_keys t opens keys later files' s' in
        let id =
          own_id fuel keys (start_keys t opens random_key false files).1 j m has_joined m_eq in
        let (keys', ended', _, j', has_joined', m_eq') =
          ran fuel' (start_keys t opens later false files') files'' m' e' in
        let id' =
          own_id fuel' keys' (start_keys t opens later false files').1 j' m' has_joined' m_eq' in
        let same_keys : keys' ≡ keys =
          done_eq (sym ended' ∙ ap (λ (r : Ending (KadRsa t) × Files). r.0) again) in
        (
          keys,
          ended,
          again,
          ap (λ (x : KadId). some x) (sym id),
          id' ∙ ap (λ (k : KadRsa t). local_id names t digests opens random k) same_keys ∙ sym id,
        )

  -- If names and addresses are printed as `Printed` says, `bsp.cfg` can be opened, and a run of
  -- the node ends without an error and with at least one contact that `Leave` gives, then what the
  -- next run loads from `bsp.cfg` is what is looked up for the line of each address that `Leave`
  -- gave, in their order, and after it what is looked up for an empty text.
  pub run_node-load_bsp :
      (fuel random_key : ℕ) (temporary : Bool) (files files' : Files) (m : Manager Addr)
      → Printed names
      → opens "bsp.cfg" ≡ true
      → length (leave m) ≢ 0
      → run_node names t digests opens random typed wait console fuel random_key temporary files
        ≡ some (done m, files')
      → load_bsp names (files' "bsp.cfg") ≡ looked_up names (leave m) ++ names.lookup []
  unfolding run_node
  run_node-load_bsp fuel random_key temporary files files' m p can some_left e =
      let (keys, ended, left, _, _, _) =
        ran fuel (start_keys t opens random_key temporary files) files' m e in
      let more : (length (leave m) == 0) ≡ false = ground (arith, ==_iff (length (leave m)) 0) in
      rw left (
        rw more (
          load-save_bsp names p opens "bsp.cfg" (leave m)
            (start_keys t opens random_key temporary files).1 can))
