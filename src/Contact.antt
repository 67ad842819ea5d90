-- ===== src/Contact.antt =====
-- src/KadContact.h. A `KadContactPtr` is shared: the routing table, the lookups and the pending
-- requests hold the same object. `mId` and `mAddrExt` are set by the constructor and never written
-- again, so a pointer is modelled with these two and with the number `ref` of the object, and the
-- one field that is written, `mFailQty`, stands in a store. `mRTT` is never used.
-- The address type (`XSockAddr`) is not in the repository: it is a parameter.
use kad.Common.{ℕ, suc, Bool, ◌==◌, leb, if◌then◌else◌}
use kad.Config.{stale_limit}
use kad.NodeId.{KadId}

pub record Contact {ℓ} (Addr : Type ℓ) : Type ℓ where
  pub ref : ℕ
  pub id : KadId
  pub addr : Addr

-- The contacts that were made so far, by number, and their `mFailQty`.
pub record Store : Type 0 where
  pub fresh : ℕ
  pub fail_qty : ℕ → ℕ

abbrev pub empty : Store
empty = record { fresh = 0; fail_qty = λ _. 0 }

unfoldable pub set_fail_qty : Store → ℕ → ℕ → Store
set_fail_qty s ref qty = record s { fail_qty = λ r. if r == ref then qty else s.fail_qty r }

-- The store after `new KadContact`: the object takes the next number, with `mFailQty` 0.
abbrev pub made_store : Store → Store
made_store s = record {
  fresh = suc s.fresh;
  fail_qty = λ r. if r == s.fresh then 0 else s.fail_qty r;
}

module _ {ℓ} {Addr : Type ℓ} where
  -- The pointer that `new KadContact(id, addr)` returns.
  abbrev pub made : Store → KadId → Addr → Contact Addr
  made s id addr = record { ref = s.fresh; id = id; addr = addr }

  unfoldable pub is_stale : Store → Contact Addr → Bool
  is_stale s c = leb stale_limit (s.fail_qty c.ref)

  unfoldable pub became_stale : Store → Contact Addr → Bool
  became_stale s c = s.fail_qty c.ref == stale_limit
