-- ===== src/Manager/Joined.antt =====
-- `Join` of src/KadOpMgr.h ends, once a round has brought a contact, with a lookup of the node's own id.
use mathlib.Core.List.{append-nil, append_assoc}
use kad.Common.{
  ℕ, zero, suc, ◌+◌, ◌*◌, ◌≤◌, ◌≡◌, ◌≢◌, refl, ap, ◌∙◌, sym, arith, false, some, List, [], ◌++◌,
  length, ◌==◌, ==_iff,
}
use kad.Routing.Query.{count_contacts}
use kad.Manager.{Manager, find_key}
use kad.Manager.Join.{delay, delay-suc, delay_zero, first_delay, next_delay}
use kad.Manager.Invariant.{IsManager}
use kad.Manager.Receive.{find_key-IsManager}
use kad.Manager.Network.{Datagram, Joining, join, join_loop, join_round, ping_all}

module _ {ℓ} {Addr : Type ℓ} (wait : ℕ → Manager Addr → Manager Addr) (bsp : List Addr) where
  -- The node after `n` rounds, from round `r` on, and the pings and the time of these rounds.
  abbrev pub waited : ℕ → ℕ → Manager Addr → Manager Addr
  waited zero r m = m
  waited (suc n) r m = waited n (suc r) (wait r m)

  abbrev pub rounds_of_pings : ℕ → ℕ → Manager Addr → List (Datagram Addr)
  rounds_of_pings zero r m = []
  rounds_of_pings (suc n) r m = ping_all m.local bsp ++ rounds_of_pings n (suc r) (wait r m)

  abbrev pub delays : ℕ → ℕ → ℕ
  delays zero r = 0
  delays (suc n) r = 50 * length bsp + delay r + delays n (suc r)

  -- No contact before the end of round `n`.
  abbrev pub Alone : ℕ → ℕ → Manager Addr → Type 0
  Alone zero r m = Unit {0}
  Alone (suc n) r m = (count_contacts m.table ≡ 0) × Alone n (suc r) (wait r m)

  rounds : ℕ → ℕ → Joining Addr → Joining Addr
  rounds zero r j = j
  rounds (suc n) r j = rounds n (suc r) (join_round wait bsp r j)

  rounds_lem :
      (n r : ℕ) (j : Joining Addr)
      → j.delay ≡ delay r
      → ((rounds n r j).manager ≡ waited n r j.manager)
        × ((rounds n r j).pings ≡ j.pings ++ rounds_of_pings n r j.manager)
        × ((rounds n r j).slept ≡ j.slept + delays n r)
  unfolding rounds
  rounds_lem zero r j d = (refl, sym (append-nil j.pings), omega arith)
  rounds_lem (suc n) r j d =
      let (m, p, s) =
        rounds_lem n (suc r) (join_round wait bsp r j) (ap next_delay d ∙ sym (delay-suc r)) in
      (
        m,
        p
            ∙ append_assoc j.pings (ping_all j.manager.local bsp)
                (rounds_of_pings n (suc r) (wait r j.manager)),
        omega (arith, s, d),
      )

  join_loop_found :
      (fuel r : ℕ) (j : Joining Addr)
      → count_contacts j.manager.table ≢ 0
      → join_loop wait bsp fuel r j ≡ some j
  unfolding join_loop
  join_loop_found zero r j found = ground arith
  join_loop_found (suc fuel) r j found = ground arith

  join_loop_lem :
      (n fuel r : ℕ) (j : Joining Addr)
      → n ≤ fuel
      → Alone n r j.manager
      → count_contacts (waited n r j.manager).table ≢ 0
      → join_loop wait bsp fuel r j ≡ some (rounds n r j)
  unfolding join_loop rounds
  join_loop_lem zero fuel r j h alone found = join_loop_found fuel r j found
  join_loop_lem (suc n) zero r j h alone found = absurd (omega arith)
  join_loop_lem (suc n) (suc fuel) r j h alone found =
      rw (alone.0)
        (join_loop_lem n fuel (suc r) (join_round wait bsp r j) (omega arith) alone.1 found)

  waited-IsManager :
      ((r : ℕ) (m : Manager Addr) → IsManager m → IsManager (wait r m))
      → (n r : ℕ) (m : Manager Addr) → IsManager m
      → IsManager (waited n r m)
  waited-IsManager keeps zero r m v = v
  waited-IsManager keeps (suc n) r m v = waited-IsManager keeps n (suc r) (wait r m) (keeps r m v)

  module _ (random : ℕ → ℕ) where
    -- Let there be at least one address to join by, a manager that keeps its invariant, as it does
    -- through whatever happens while `Join` sleeps, and let the first contact be there after n
    -- rounds, n at most the fuel. Then `Join` returns, the manager that it leaves is the one after
    -- n rounds with the lookup of its own id started, keeps its invariant, and the pings sent and
    -- the milliseconds slept are those of the n rounds.
    pub join_lem :
        (n fuel : ℕ) (m : Manager Addr)
        → length bsp ≢ 0
        → n ≤ fuel
        → Alone n 0 m
        → count_contacts (waited n 0 m).table ≢ 0
        → IsManager m
        → ((r : ℕ) (m' : Manager Addr) → IsManager m' → IsManager (wait r m'))
        → (j : Joining Addr) × (join wait bsp random fuel m ≡ some j)
          × (find_key random (waited n 0 m).local (waited n 0 m) ≡ some j.manager)
          × IsManager j.manager
          × (j.pings ≡ rounds_of_pings n 0 m)
          × (j.slept ≡ delays n 0)
    unfolding join
    join_lem n fuel m some_bsp h alone found v keeps =
        let j0 : Joining Addr = record {
          manager = m;
          pings = [];
          slept = 0;
          delay = first_delay;
        } in
        let j = rounds n 0 j0 in
        let (same, pings, slept) = rounds_lem n 0 j0 delay_zero in
        let ends = join_loop_lem n fuel 0 j0 h alone found in
        let (m', looked, kept) =
          find_key-IsManager random (waited n 0 m).local (waited n 0 m)
            (waited-IsManager keeps n 0 m v) in
        let here : find_key random j.manager.local j.manager ≡ some m' =
          ap (λ (t : Manager Addr). find_key random t.local t) same ∙ looked in
        let no : (length bsp == 0) ≡ false = ground (arith, ==_iff (length bsp) 0) in
        let nothing : 0 + delays n 0 ≡ delays n 0 = omega arith in
        (
          record j { manager = m' },
          rw (no, ends) (rw here refl),
          looked,
          kept,
          pings,
          slept ∙ nothing,
        )
