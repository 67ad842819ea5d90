-- ===== src/Lookup/Answer.antt =====
-- `OnResponce`: that it returns, and what it leaves of the table and of the requests in flight.
use kad.Common.{suc, ◌+◌, ◌-◌, ◌≤◌, ◌≡◌, refl, sym, subst, arith, true}
use kad.Common.{List, [], ◌∷◌, ◌++◌, ◌==◌, leb, length, All, Option-cases}
use kad.Common.{Bool-cases, inl, inr, Option, some, none, ◌||◌}
use mathlib.Core.List.{append-nil}
use kad.Config.{alpha, id_size}
use kad.NodeId.{KadId, id_eq, is_zero}
use kad.NodeId.Value.{IsId}
use kad.Contact.{Contact, Store, is_stale}
use kad.Routing.{Node}
use kad.Routing.Query.{find_in}
use kad.Routing.Invariant.{IsTable}
use kad.Routing.Table.{add-IsTable}
use kad.Lookup.{FindOp, Turn, Merging, without}
use kad.Lookup.Respond.{merge, on_timeout, on_answer, on_response}
use kad.Lookup.Asked.{send-some}
use kad.Lookup.Pending.{Tracks, send-Tracks, answered_holds, answered_counted, answered-Tracks}
use kad.Lookup.Pending.{freed-Tracks, room_left}

module _ {ℓ} {Addr : Type ℓ} where
  -- The call returns; the table keeps its invariant, and the lookup tracks the requests that it
  -- had, and those that it has sent.
  abbrev pub Answers : KadId → List (Contact Addr) → Option (Turn Addr) → Type ℓ
  Answers local had o =
      (turn : Turn Addr) × (o ≡ some turn)
      × IsTable local 0 0 turn.table
      × Tracks turn.op (had ++ turn.sent)

  -- The ids of a response have 20 bytes.
  abbrev pub IsNamed : Option (List (KadId × Addr)) → Type 0
  IsNamed none = Unit {0}
  IsNamed (some rsp) = All (λ p. IsId id_size p.0) rsp

module _ {ℓ} {Addr : Type ℓ} (local : KadId) (l : IsId id_size local) where
  -- The merge returns, and the table keeps its invariant.
  merge-IsTable :
      (op : FindOp Addr) (rsp : List (KadId × Addr)) (t : Merging Addr)
      → All (λ p. IsId id_size p.0) rsp
      → IsTable local 0 0 t.table
      → (t' : Merging Addr) × (merge local op rsp t ≡ some t') × IsTable local 0 0 t'.table
  unfolding merge
  merge-IsTable op [] t v h = (t, refl, h)
  merge-IsTable op ((id, addr) ∷ rest) t v h = elim (Bool-cases (is_zero id || id_eq id local)) [
    | inl skip ↦ rw (skip, merge) (merge-IsTable op rest t v.1 h)
    | inr other ↦ elim (Option-cases (find_in id op.block)) [
      | inr (c, e) ↦ rw (other, e, merge) (merge-IsTable op rest t v.1 h)
      | inl unblocked ↦ elim (Option-cases (find_in id t.list)) [
        | inr (c, e) ↦ rw (other, unblocked, e, merge) (merge-IsTable op rest t v.1 h)
        | inl unlisted ↦
            let (r, e, table, _, _) = add-IsTable local l t.store id addr t.table h v.0 in
            rw (other, unblocked, unlisted, e, merge) (merge-IsTable op rest _ v.1 table)
      ]
    ]
  ]

  module _ (op : FindOp Addr) (xs : List (Contact Addr)) (c : Contact Addr)
      (ys : List (Contact Addr)) (t : Tracks op (xs ++ c ∷ ys)) (s : Store) (table : Node Addr)
      (h : IsTable local 0 0 table) where
    abbrev counted_down : FindOp Addr
    counted_down = record op { pending = length (xs ++ ys) }

    on_timeout-Answers : Answers local (xs ++ ys) (on_timeout table s counted_down c)
    unfolding on_timeout
    on_timeout-Answers =
        let room = room_left op xs c ys t in
        let fits : length (xs ++ ys) + 1 ≤ alpha = omega (arith, room) in
        elim (Bool-cases (is_stale s c)) [
          | inl stale ↦
              let op' = record counted_down { list = without op.list c } in
              rw (stale, send-some s 0 op')
                (
                  _,
                  refl,
                  h,
                  send-Tracks s 0 op' (xs ++ ys) (answered-Tracks op xs c ys t (without op.list c))
                      fits,
                )
          | inr live ↦
              let op' = record counted_down { block = without op.block c } in
              rw (live, send-some s 0 op')
                (_, refl, h, send-Tracks s 0 op' (xs ++ ys) (freed-Tracks op xs c ys t) fits)
        ]

    on_answer-Answers :
        (rsp : List (KadId × Addr))
        → All (λ p. IsId id_size p.0) rsp
        → Answers local (xs ++ ys) (on_answer local table s counted_down rsp)
    unfolding on_answer
    on_answer-Answers rsp v =
        let start : Merging Addr = record {
          list = op.list;
          table = table;
          store = s;
          inserted = 0;
          in_rt = 0;
        } in
        let (m, e, table') = merge-IsTable counted_down rsp start v h in
        let room = room_left op xs c ys t in
        let op' : FindOp Addr = record counted_down { list = m.list } in
        let tracks : Tracks op' (xs ++ ys) = answered-Tracks op xs c ys t m.list in
        elim (Bool-cases (m.inserted == 0)) [
          | inl same ↦
              rw (e, same, on_answer)
                (_, refl, table', subst (Tracks op') (sym (append-nil (xs ++ ys))) tracks)
          | inr more ↦
              let n = alpha - 1 - length (xs ++ ys) in
              let free : alpha - length (xs ++ ys) ≡ suc n = omega (arith, room) in
              let few : leb (length (xs ++ ys)) alpha ≡ true = ground (arith, room) in
              rw (e, more, few, free, send-some m.store n op', on_answer)
                (_, refl, table', send-Tracks m.store n op' (xs ++ ys) tracks (omega (arith, room)))
        ]

    -- For ids of 20 bytes and a table that keeps the invariant: if the pending requests of a
    -- lookup are counted, at most ALPHA, blocked and to different contacts, and `OnResponce` is
    -- called for one of them, with a response or none, then it returns, with no assertion failed
    -- and no count below 0; the table keeps the invariant; and the other requests with those that
    -- it sent are again counted, at most ALPHA, blocked and to different contacts.
    pub on_response_lem :
        (rsp : Option (List (KadId × Addr)))
        → IsNamed rsp
        → Answers local (xs ++ ys) (on_response local table s op rsp c)
    unfolding on_response
    on_response_lem none v =
        rw (answered_holds op xs c ys t, answered_counted op xs c ys t) on_timeout-Answers
    on_response_lem (some rsp) v =
        rw (answered_holds op xs c ys t, answered_counted op xs c ys t) (on_answer-Answers rsp v)
