-- ===== src/Program.antt =====
-- src/kad_node.cpp: the program that runs a node. It takes its address and its keys, reads the addresses
-- of other nodes from a file, joins the network, runs a console, leaves, and writes the file again.
-- `Lookup`, `ResolveName`, `Port` and `ToString` of `XSockAddr`, which is not in the repository, are the
-- record `Names`. What is typed, and what the node does meanwhile, are arguments.
pub mod Bootstrap
pub mod Identity
use mathlib.Core.Option
use kad.Common.{
  ℕ, zero, suc, ◌+◌, ◌/◌, ◌%◌, Bool, true, false, Option, none, some, List, [], ◌∷◌, ◌++◌,
}
use kad.Common.{
  length, get_or, ltb, ◌==◌, if◌then◌else◌, not, String, Bytes, Files, name_eq, write_file,
}
use kad.NodeId.{KadId}
use kad.NodeId.Hash.{Digests, hash_20}
use kad.Contact.{empty}
use kad.Routing.{root}
use kad.Routing.Query.{get_contacts}
use kad.Manager.{Manager, new_manager}
use kad.Manager.Network.{Datagram, Joining, ping_all, join, leave}
use kad.Rsa.{KeyTools, KadRsa, Ending, done, fatal, thrown, pub_encode, start_keys}

pub record Names {ℓ} (Addr : Type ℓ) : Type ℓ where
  pub lookup : Bytes → List Addr
  pub resolve_name : Addr → Bytes
  pub port : Addr → ℕ
  pub to_string : Addr → Bytes

-- The address to bind to: the default, one that is given, or a random port.
pub data Bind : Type 0 where
  default : Bind
  given : String → Bind
  random_port : ℕ → Bind

-- The command line after the program's name, with what `RandRange` gives: the address, and whether
-- the node is temporary.
unfoldable pub options : ℕ → List String → Bind × Bool
options port (a ∷ []) = if name_eq a "-temp" then (random_port port, true) else (given a, false)
options port (a ∷ b ∷ []) = (default, name_eq b "-temp")
options port _ = (default, false)

-- `getline` until the end of the file: a line to each newline, and one after the last.
abbrev pub to_first : ℕ → List Bytes → List Bytes
to_first c [] = (c ∷ []) ∷ []
to_first c (l ∷ ls) = (c ∷ l) ∷ ls

unfoldable pub lines : Bytes → List Bytes
lines [] = [] ∷ []
lines (c ∷ cs) = let rest = lines cs in if c == 10 then [] ∷ rest else to_first c rest

-- A port as it is printed, of at most five digits.
unfoldable pub decimal : ℕ → ℕ → Bytes
decimal zero n = (48 + n % 10) ∷ []
decimal (suc more) n =
    let rest = decimal more (n / 10) in
    if ltb n 10 then (48 + n % 10) ∷ [] else rest ++ (48 + n % 10) ∷ []

module _ {ℓ} {Addr : Type ℓ} (names : Names Addr) where
  open names use {lookup, resolve_name, port, to_string}

  -- `LoadBspFromFile`, of what stands in the file; a line that begins with `;` is left out.
  unfoldable pub load_lines : List Bytes → List Addr
  load_lines [] = []
  load_lines (l ∷ ls) =
      let rest = load_lines ls in if get_or l 0 0 == 59 then rest else lookup l ++ rest

  abbrev pub load_bsp : Option Bytes → List Addr
  load_bsp none = []
  load_bsp (some content) = load_lines (lines content)

  -- `SaveBspToFile`.
  unfoldable pub bsp_line : Addr → Bytes
  bsp_line a =
      if length (resolve_name a) == 0
      then to_string a
      else resolve_name a ++ 58 ∷ decimal 4 (port a)

  unfoldable pub bsp_text : List Addr → Bytes
  bsp_text [] = []
  bsp_text (a ∷ addrs) = bsp_line a ++ 10 ∷ bsp_text addrs

  unfoldable pub save_bsp : (String → Bool) → String → List Addr → Files → Files
  save_bsp opens fn addrs files = if opens fn then write_file fn (bsp_text addrs) files else files

  module _ (t : KeyTools) (digests : Digests) (opens : String → Bool) (random : ℕ → ℕ) where
    -- The id of the node: the hash of its public key.
    abbrev pub local_id : KadRsa t → KadId
    local_id keys = hash_20 digests (pub_encode t keys.public)

    module _ (typed : Addr) (wait : ℕ → Manager Addr → Manager Addr)
        (console : Manager Addr → Manager Addr) where
      -- The addresses to join by; where there are none, one is typed.
      abbrev pub or_typed : List Addr → List Addr
      or_typed bsp = if length bsp == 0 then typed ∷ [] else bsp

      -- From `Leave` on: an empty list does not overwrite the file.
      abbrev pub left_files : List Addr → Files → Files
      left_files addrs files =
          if length addrs == 0 then files else save_bsp opens "bsp.cfg" addrs files

      abbrev pub after_join : Files → Option (Joining Addr) → Option (Ending (Manager Addr) × Files)
      after_join files none = none
      after_join files (some j) =
          let m = console j.manager in some (done m, left_files (leave m) files)

      abbrev pub with_keys : ℕ → Ending (KadRsa t) × Files → Option (Ending (Manager Addr) × Files)
      with_keys fuel (fatal, files) = some (fatal, files)
      with_keys fuel (thrown, files) = some (thrown, files)
      with_keys fuel (done keys, files) = after_join files (
          join wait (or_typed (load_bsp (files "bsp.cfg"))) random fuel
            (new_manager (local_id keys) root empty))

      -- `main`; `none` if the node has no contact after `fuel` rounds of `Join`.
      unfoldable pub run_node : ℕ → ℕ → Bool → Files → Option (Ending (Manager Addr) × Files)
      run_node fuel random_key temporary files =
          with_keys fuel (start_keys t opens random_key temporary files)

-- The commands of the console; each gets the words of its line, here those after its name.
pub data Command {ℓ} (Addr : Type ℓ) : Type ℓ where
  peers : Command Addr
  find_node : Command Addr
  update : Command Addr
  ping : List Bytes → Command Addr

-- What a command returns and sends, and the number that it prints.
pub record Reaction {ℓ} (Addr : Type ℓ) : Type ℓ where
  pub code : ℕ
  pub sent : List (Datagram Addr)
  pub printed : List ℕ

module _ {ℓ} {Addr : Type ℓ} (names : Names Addr) where
  abbrev answer : ℕ → Reaction Addr
  answer code = record { code = code; sent = []; printed = [] }

  unfoldable pub command : Command Addr → Option (Manager Addr) → Reaction Addr
  command find_node gmgr = answer 0
  command update gmgr = answer 0
  command peers none = answer 1
  command peers (some m) = record (answer 0) {
    printed = length (get_contacts m.store m.table) ∷ [];
  }
  command (ping words) none = answer 1
  command (ping (word ∷ [])) (some m) = record (answer 0) {
    sent = ping_all m.local (names.lookup word);
  }
  command (ping []) (some m) = answer 1
  command (ping (word ∷ w ∷ words)) (some m) = answer 1
