-- ===== src/Manager/Refresh.antt =====
-- `RefreshAllBuckets` of src/KadOpMgr.h: the ids that it looks up, and the lookups that it starts.
use mathlib.Core.List.{append-nil, append_assoc}
use kad.Common.{map, ap₂}
use kad.Common.{
  ℕ, zero, suc, ◌-◌, ◌*◌, ◌<◌, ◌≡◌, refl, sym, ap, ◌∙◌, arith, true, false, Option, some, ◌∷◌, [],
  ◌++◌,
}
use kad.Common.{length, ltb, ◌==◌, if◌then◌else◌, List}
use kad.Config.{id_size}
use kad.NodeId.{KadId, xor, set_bit, set_bits, get_bit}
use kad.NodeId.Value.{IsId}
use kad.NodeId.Metric.{xor_comm, xor_cancel}
use kad.NodeId.Bit.{get_bit-set_bit, set_bit-IsId}
use kad.NodeId.Bits.{set_bits-IsId, get_bit-set_bits, or-power_of_two}
use kad.Lookup.{FindOp, new_find, start}
use kad.Lookup.Asked.{sent_op, sent_to, send-some}
use kad.Manager.{Manager, find_key, post}
use kad.Manager.Flying.{post-Posts}
use kad.Manager.Invariant.{IsManager}
use kad.Manager.Receive.{find_key-IsManager}
use kad.Manager.Network.{refresh_target, refresh_from}

-- For ids of 20 bytes and i less than 160, the distance of the id that `RefreshAllBuckets` looks
-- up for bucket i has a 1 at bit 159 - i from the top, 0 at the other bits of the i topmost ones,
-- and elsewhere the random bits.
pub refresh_target_bits :
    (local rnd : KadId) (i j : ℕ)
    → IsId id_size local
    → IsId id_size rnd
    → i < 160
    → get_bit (xor (refresh_target local rnd i) local) j
      ≡ (if 159 - i == j then true else if ltb j i then false else get_bit rnd j)
unfolding refresh_target
refresh_target_bits local rnd i j l r h =
    let x = set_bits rnd 0 i false in
    let x_id = set_bits-IsId id_size rnd 0 i false r in
    let one = or-power_of_two id_size x i x_id in
    let y = set_bit x (id_size * 8 - 1 - i) true in
    let back : xor (xor y local) local ≡ y =
      xor_comm (xor y local) local
      ∙ ap (xor local) (xor_comm y local)
      ∙ xor_cancel id_size local y l (set_bit-IsId id_size x (id_size * 8 - 1 - i) true x_id) in
    let bit = get_bit-set_bit id_size x (id_size * 8 - 1 - i) j true x_id (omega arith) in
    let bits = get_bit-set_bits id_size rnd 0 i j false r (omega arith) in
    rw (one, back, bit, bits) (ground arith)

module _ {ℓ} {Addr : Type ℓ} (random : ℕ → ℕ) where
  some_eq : {a b : Manager Addr} → ◌≡◌ {A = Option (Manager Addr)} (some a) (some b) → a ≡ b
  some_eq h = cc

  -- The keys of the lookups, the first one first.
  abbrev pub keys : Manager Addr → List KadId
  keys m = map (λ (op : FindOp Addr). op.key) m.lookups

  map-append_one :
      (ops : List (FindOp Addr)) (op : FindOp Addr)
      → map (λ (o : FindOp Addr). o.key) (ops ++ op ∷ [])
        ≡ map (λ (o : FindOp Addr). o.key) ops ++ op.key ∷ []
  map-append_one [] op = refl
  map-append_one (o ∷ ops) op = ap (λ (t : List KadId). o.key ∷ t) (map-append_one ops op)

  -- `Find` starts one lookup, of its key, after the others.
  find_key_adds :
      (key : KadId) (m m' : Manager Addr)
      → find_key random key m ≡ some m'
      → (keys m' ≡ keys m ++ key ∷ []) × (m'.local ≡ m.local)
  unfolding find_key start new_find
  find_key_adds key m m' e =
      let op = new_find m.local m.store m.table key in
      let base : Manager Addr = record m { lookups = m.lookups ++ sent_op m.store 2 op ∷ [] } in
      let p = post-Posts random (length m.lookups) (sent_to m.store 2 op) base in
      let same : post random (length m.lookups) (sent_to m.store 2 op) base ≡ m' =
        some_eq (rw (send-some m.store 2 op) at e) in
      (
        ap keys (sym same)
            ∙ ap (map (λ (o : FindOp Addr). o.key)) p.lookups
            ∙ map-append_one m.lookups (sent_op m.store 2 op),
        ap (λ (t : Manager Addr). t.local) (sym same) ∙ p.local,
      )

  module _ (random_id : ℕ → KadId) (wait : ℕ → Manager Addr → Manager Addr) where
    -- The ids to look up for the buckets from `i` on.
    abbrev pub targets : KadId → ℕ → ℕ → List KadId
    targets local zero i = []
    targets local (suc count) i = refresh_target local (random_id i) i ∷ targets local count (suc i)

    module _ (keeps : (i : ℕ) (m : Manager Addr) → IsManager m → IsManager (wait i m))
        (same_id : (i : ℕ) (m : Manager Addr) → (wait i m).local ≡ m.local)
        (same_keys : (i : ℕ) (m : Manager Addr) → keys (wait i m) ≡ keys m) where
      -- Let the manager keep its invariant, and what happens in the pause after a lookup keep the
      -- invariant, the node's id, and the keys of the lookups that were started. Then the loop of
      -- `RefreshAllBuckets`, for any number of rounds and any random ids, returns, the manager
      -- keeps its invariant and the node its id, and the keys of the lookups are those before and
      -- then the ids for the buckets of the rounds, one for each, in their order.
      pub refresh_from_lem :
          (count i : ℕ) (m : Manager Addr)
          → IsManager m
          → (m' : Manager Addr) × (refresh_from random random_id wait count i m ≡ some m')
            × IsManager m'
            × (m'.local ≡ m.local)
            × (keys m' ≡ keys m ++ targets m.local count i)
      unfolding refresh_from
      refresh_from_lem zero i m v = (m, refl, v, refl, sym (append-nil (keys m)))
      refresh_from_lem (suc count) i m v =
          let key = refresh_target m.local (random_id i) i in
          let (m1, e, v1) = find_key-IsManager random key m v in
          let (added, same) = find_key_adds key m m1 e in
          let local = same_id i m1 ∙ same in
          let (m', e', v', local', rest) =
            refresh_from_lem count (suc i) (wait i m1) (keeps i m1 v1) in
          (
            m',
            rw (e, refresh_from) e',
            v',
            local' ∙ local,
            rest
                ∙ ap₂ (λ (x : List KadId) (id : KadId). x ++ targets id count (suc i))
                    (same_keys i m1 ∙ added) local
                ∙ append_assoc (keys m) (key ∷ []) (targets m.local count (suc i)),
          )
