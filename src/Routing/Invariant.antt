-- ===== src/Routing/Invariant.antt =====
-- The invariant of the routing table. A bucket is within its limits, holds ids of its own range, no
-- id twice, and caches contacts only if it can never split.
use kad.Common.{◌⊎◌, inl, ℕ, ◌+◌, ◌-◌, ◌*◌, ◌≤◌, ◌<◌, ◌≡◌, refl, arith, false, List, length, All}
use kad.Common.{All-imp}
use kad.Config.{id_bits, bucket_size, cache_size}
use kad.NodeId.{KadId}
use kad.Contact.{Contact}
use kad.Routing.{Bucket, Node, bucket, space, may_split, root}
use kad.Routing.Items.{Valid, Distinct}
use kad.Routing.Place.{Under, IsPlace, root-IsPlace}

module _ {ℓ} {Addr : Type ℓ} (local : KadId) where
  abbrev pub AllUnder : ℕ → ℕ → List (Contact Addr) → Type 0
  AllUnder d i cs = All (λ c. Under local d i c.id) cs

  pub record IsBucket (d i : ℕ) (b : Bucket Addr) : Type 0 where
    pub place : IsPlace d i
    pub contacts_fit : length b.contacts ≤ bucket_size
    pub cache_fits : length b.cache ≤ cache_size
    pub contacts_under : AllUnder d i b.contacts
    pub cache_under : AllUnder d i b.cache
    pub distinct : Distinct b.contacts
    pub cache_distinct : Distinct b.cache
    pub closed : (length b.cache ≡ 0) ⊎ (may_split d i ≡ false)

  abbrev pub IsTable : ℕ → ℕ → Node Addr → Type 0
  IsTable d i (bucket e j b) = (e ≡ d) × (j ≡ i) × IsBucket d i b
  IsTable d i (space e j m0 m1) =
      (e ≡ d)
      × (j ≡ i)
      × (d < id_bits - 1)
      × IsPlace d i
      × IsTable (d + 1) (i * 2) m0
      × IsTable (d + 1) (i * 2 + 1) m1

  pub root-IsTable : IsTable 0 0 root
  root-IsTable = (
    refl,
    refl,
    record {
      place = root-IsPlace;
      contacts_fit = omega arith;
      cache_fits = omega arith;
      contacts_under = tt;
      cache_under = tt;
      distinct = tt;
      cache_distinct = tt;
      closed = inl refl;
    },
  )

  pub AllUnder-Valid : (d i : ℕ) (cs : List (Contact Addr)) → AllUnder d i cs → All Valid cs
  AllUnder-Valid d i cs h =
      All-imp {P = λ (c : Contact Addr). Under local d i c.id} (λ c u. u.0) cs h
