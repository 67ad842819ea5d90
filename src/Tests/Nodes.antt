-- ===== src/Tests/Nodes.antt =====
-- A run of the program of src/kad_node.cpp: it makes its keys, joins, leaves, and runs again.
use kad.Common.{
  ℕ, zero, suc, ◌≡◌, ◌≢◌, refl, arith, false, some, none, List, [], ◌∷◌, ◌++◌, length, replicate,
  get_or, Bytes, Files, write_file,
}
use kad.NodeId.{xor, id_eq, memcmp, get_bit}
use kad.NodeId.Hash.{from_hash}
use kad.Contact.{is_stale, empty}
use kad.Routing.{root, append_contact, add, add_node, find_node_by_id}
use kad.Routing.Query.{count_contacts, get_contacts, closest, find_closest, select}
use kad.Lookup.{start, send, send_passes, send_pass, new_find, insert_all, insert, find_spot, holds}
use kad.Manager.{Manager, post, receive, find_add_contact, find_key, new_manager}
use kad.Manager.Network.{join, join_loop, leave}
use kad.Manager.Steps.{react}
use kad.Manager.Named.{SameId}
use kad.Manager.Kept.{find_add_contact-SameWork}
use kad.Config.{id_size}
use kad.Tests.Data.{low_byte}
use kad.Common.{Bool-cases, Option-cases, inl, inr}
use kad.Rsa.{loaded, KadRsa, start_keys, try_load_keys, save_keys, generated, validate_keys, done}
use kad.Program.{
  lines, load_lines, bsp_text, decimal, save_bsp, Names, load_bsp, bsp_line, left_files, run_node,
}
use kad.Program.Bootstrap.{OneLine, Printed, looked_up}
use kad.Program.Identity.{run_node_again, run_node-load_bsp}
use kad.Tests.Texts.{digests}
use kad.Tests.Network.{draw, or_same, wait}
use kad.Tests.Programs.{key_tools, key_tools-Codec, nothing, anywhere}

abbrev size_of : Bytes → List ℕ
size_of [] = []
size_of (c ∷ cs) = length cs ∷ []

abbrev name_of : ℕ → Bytes
name_of zero = []
name_of (suc n) = 110 ∷ []

-- The address 0 has no name and is printed as the letter a; the others have the name n, so that they are
-- looked up as something else.
abbrev names : Names ℕ
names = record { lookup = size_of; resolve_name = name_of; port = λ a. a; to_string = λ a. 97 ∷ [] }

name_of-OneLine : (n : ℕ) → OneLine (name_of n)
name_of-OneLine zero = tt
name_of-OneLine (suc n) = ((λ e. absurd (omega (arith, e))), tt)

name_of_first : (n : ℕ) → get_or (name_of n) 0 0 ≢ 59
name_of_first zero e = absurd (omega (arith, e))
name_of_first (suc n) e = absurd (omega (arith, e))

names-Printed : Printed names
names-Printed = record {
  name_line = name_of-OneLine;
  text_line = λ a. ((λ e. absurd (omega (arith, e))), tt);
  name_first = name_of_first;
  text_first = λ a e. absurd (omega (arith, e));
}

abbrev joined_by : Manager ℕ
joined_by = wait 0 (new_manager (replicate 20 7) root empty)

abbrev node : Manager ℕ
node = or_same joined_by (find_key draw joined_by.local joined_by)

abbrev left : Files
left =
    left_files names key_tools digests anywhere draw 70 wait (λ m. m) (leave node)
      (start_keys key_tools anywhere 4 false nothing).1

ran :
    run_node names key_tools digests anywhere draw 70 wait (λ m. m) 1 4 false nothing
    ≡ some (done node, left)
unfolding run_node join join_loop start_keys try_load_keys save_keys generated validate_keys
    from_hash count_contacts react receive find_add_contact add add_node find_node_by_id is_stale
    xor id_eq memcmp get_bit append_contact find_key start send write_file
ran = refl

abbrev left_again : Files
left_again =
    left_files names key_tools digests anywhere draw 70 wait (λ m. m) (leave node)
      (start_keys key_tools anywhere 8 false left).1

ran_again :
    run_node names key_tools digests anywhere draw 70 wait (λ m. m) 1 8 false left
    ≡ some (done node, left_again)
unfolding run_node join join_loop start_keys try_load_keys save_keys generated validate_keys
    from_hash count_contacts react receive find_add_contact add add_node find_node_by_id is_stale
    xor id_eq memcmp get_bit append_contact find_key start send write_file lines load_lines bsp_text
    bsp_line decimal save_bsp leave get_contacts post send_passes send_pass new_find insert_all
    closest find_closest select insert find_spot holds loaded
ran_again = refl

wait-SameId : (r : ℕ) (m : Manager ℕ) → SameId m (wait r m)
unfolding react receive
wait-SameId r m = elim (Bool-cases (id_eq (low_byte 5) m.local)) [
  | inl self ↦ rw self refl
  | inr other ↦ elim (Option-cases (find_add_contact (low_byte 5) 50 m)) [
    | inl e ↦ rw (other, e) refl
    | inr ((m1, none), e) ↦ rw (other, e) refl
    | inr ((m1, some c), e) ↦
        let same = find_add_contact-SameWork draw (low_byte 5) 50 m m1 (some c) e in
        elim (Bool-cases (is_stale m1.store c)) [
          | inl stale ↦ rw (other, e) (rw stale same.local)
          | inr live ↦ rw (other, e) (rw live same.local)
        ]
  ]
]

run_node_again_example :
    (own : KadRsa key_tools) × ((start_keys key_tools anywhere 4 false nothing).0 ≡ done own)
    × (start_keys key_tools anywhere 8 false left ≡ (done own, left))
    × (from_hash digests id_size (key_tools.encode_public own.public) ≡ some node.local)
    × (node.local ≡ node.local)
run_node_again_example =
    run_node_again names key_tools key_tools-Codec digests anywhere draw 70 wait (λ m. m)
      wait-SameId (λ m. refl) 1 4 1 8 nothing left left_again node node ran ran_again

one_left : length (leave node) ≡ 1
unfolding leave get_contacts react receive find_add_contact add add_node find_node_by_id is_stale
    xor id_eq memcmp get_bit append_contact find_key start send post send_passes send_pass new_find
    insert_all closest find_closest select insert find_spot holds
one_left = refl

some_left : length (leave node) ≢ 0
some_left e = absurd (omega (arith, one_left, e))

other_address : looked_up names (leave node) ≡ 3 ∷ []
unfolding leave get_contacts react receive find_add_contact add add_node find_node_by_id is_stale
    xor id_eq memcmp get_bit append_contact find_key start send post send_passes send_pass new_find
    insert_all closest find_closest select insert find_spot holds bsp_line decimal
other_address = refl

run_node-load_bsp_example : load_bsp names (left "bsp.cfg") ≡ looked_up names (leave node) ++ []
run_node-load_bsp_example =
    run_node-load_bsp names key_tools key_tools-Codec digests anywhere draw 70 wait (λ m. m) 1 4
      false nothing left node names-Printed refl some_left ran
