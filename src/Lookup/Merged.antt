-- ===== src/Lookup/Merged.antt =====
-- The list of a lookup stays in order through `OnResponce` (src/KadOpMgr.h).
use mathlib.Core.Option
use kad.Common.{ℕ, zero, suc, ◌-◌, ◌≡◌, sym, subst, false, ◌||◌, Option, some, none, List, [], ◌∷◌}
use kad.Common.{leb, ◌==◌, All, Bool-cases, Option-cases, inl, inr}
use kad.Config.{id_size, alpha}
use kad.NodeId.{KadId, id_eq, is_zero}
use kad.NodeId.Value.{IsId}
use kad.Contact.{Contact, Store, is_stale}
use kad.Routing.{Node}
use kad.Routing.Query.{find_in}
use kad.Routing.Items.{Valid}
use kad.Routing.Invariant.{IsTable}
use kad.Routing.Table.{add-IsTable}
use kad.Lookup.{FindOp, Turn, Merging, insert, holds, without, send}
use kad.Lookup.Respond.{merge, on_timeout, on_answer, on_response}
use kad.Lookup.Answer.{IsNamed}
use kad.Lookup.Asked.{send-some}
use kad.Lookup.Listed.{OnSome, IsListed, insert-IsListed, without-IsListed}

module _ {ℓ} {Addr : Type ℓ} where
  module _ (local key : KadId) (l : IsId id_size local) (k : IsId id_size key) where
    merge-IsListed :
        (op : FindOp Addr) (rsp : List (KadId × Addr)) (t : Merging Addr)
        → op.key ≡ key
        → All (λ p. IsId id_size p.0) rsp
        → IsTable local 0 0 t.table
        → IsListed key t.list
        → OnSome (λ (t' : Merging Addr). IsListed key t'.list) (merge local op rsp t)
    unfolding merge
    merge-IsListed op [] t q v h w = w
    merge-IsListed op ((id, addr) ∷ rest) t q v h w =
        elim (Bool-cases (is_zero id || id_eq id local)) [
          | inl skip ↦ rw (skip, merge) (merge-IsListed op rest t q v.1 h w)
          | inr other ↦ elim (Option-cases (find_in id op.block)) [
            | inr (c, e) ↦ rw (other, e, merge) (merge-IsListed op rest t q v.1 h w)
            | inl unblocked ↦ elim (Option-cases (find_in id t.list)) [
              | inr (c, e) ↦ rw (other, unblocked, e, merge) (merge-IsListed op rest t q v.1 h w)
              | inl unlisted ↦
                  let (r, e, table, named, _) = add-IsTable local l t.store id addr t.table h v.0 in
                  let valid : Valid r.contact = subst (IsId id_size) (sym named) v.0 in
                  let w' =
                    subst (λ (x : KadId). IsListed key (insert x r.contact t.list).0) (sym q)
                      (insert-IsListed key k r.contact t.list valid w) in
                  rw (other, unblocked, unlisted, e, merge)
                    (merge-IsListed op rest _ q v.1 table w')
            ]
          ]
        ]

  module _ (local key : KadId) (l : IsId id_size local) where
    abbrev pub Lists : Option (Turn Addr) → Type ℓ
    Lists =
        OnSome (λ (t : Turn Addr). (t.op.key ≡ key) × (IsId id_size key → IsListed key t.op.list))

    on_timeout-Lists :
        (table : Node Addr) (s : Store) (op : FindOp Addr) (c : Contact Addr)
        → op.key ≡ key
        → (IsId id_size key → IsListed key op.list)
        → Lists (on_timeout table s op c)
    unfolding on_timeout
    on_timeout-Lists table s op c q w = elim (Bool-cases (is_stale s c)) [
      | inl stale ↦
          rw (stale, send-some s 0 (record op { list = without op.list c }))
            (q, λ k. without-IsListed key op.list c (w k))
      | inr live ↦ rw (live, send-some s 0 (record op { block = without op.block c })) (q, w)
    ]

    on_answer-Lists :
        (table : Node Addr) (s : Store) (op : FindOp Addr) (rsp : List (KadId × Addr))
        → op.key ≡ key
        → All (λ p. IsId id_size p.0) rsp
        → IsTable local 0 0 table
        → (IsId id_size key → IsListed key op.list)
        → Lists (on_answer local table s op rsp)
    unfolding on_answer send
    on_answer-Lists table s op rsp q v h w =
        let begin : Merging Addr = record {
          list = op.list;
          table = table;
          store = s;
          inserted = 0;
          in_rt = 0;
        } in
        elim (Option-cases (merge local op rsp begin)) [
          | inl e ↦ rw (e, on_answer) tt
          | inr (t, e) ↦
              let w' = λ (k : IsId id_size key).
                (let good = merge-IsListed local key l k op rsp begin q v h (w k) in
                  rw e at good) in
              elim (Bool-cases (t.inserted == 0)) [
                | inl same ↦ rw (e, same, on_answer) (q, w')
                | inr more ↦ elim (Bool-cases (leb op.pending alpha)) [
                  | inr many ↦ rw (e, more, many, on_answer) tt
                  | inl few ↦ rw (e, more, few, on_answer) (sent-Lists t w' (alpha - op.pending))
                ]
              ]
        ]
      where
        sent-Lists :
            (t : Merging Addr)
            → (IsId id_size key → IsListed key t.list)
            → (qty : ℕ)
            → Lists (
                Option.map
                  (λ (r : FindOp Addr × List (Contact Addr)). record {
                    op = r.0;
                    table = t.table;
                    store = t.store;
                    sent = r.1;
                    complete = false;
                    in_rt = t.in_rt;
                  })
                  (send t.store qty (record op { list = t.list })))
        sent-Lists t w' zero = tt
        sent-Lists t w' (suc n) = (q, w')

    pub on_response-Lists :
        (table : Node Addr) (s : Store) (op : FindOp Addr) (rsp : Option (List (KadId × Addr)))
        (c : Contact Addr)
        → op.key ≡ key
        → IsNamed rsp
        → IsTable local 0 0 table
        → (IsId id_size key → IsListed key op.list)
        → Lists (on_response local table s op rsp c)
    unfolding on_response
    on_response-Lists table s op rsp c q v h w = elim (Bool-cases (holds op.block c)) [
      | inr other ↦ rw other (q, w)
      | inl here ↦ rw here (by_pending op.pending rsp v)
    ]
      where
        by_pending :
            (pending : ℕ) (rsp : Option (List (KadId × Addr)))
            → IsNamed rsp
            → Lists (elim pending [
              | zero ↦ none
              | suc pending' ↦
                  let op' = record op { pending = pending' } in
                  elim rsp [
                    | none ↦ on_timeout table s op' c
                    | some named ↦ on_answer local table s op' named
                  ]
            ])
        by_pending zero rsp v' = tt
        by_pending (suc pending') none v' =
            on_timeout-Lists table s (record op { pending = pending' }) c q w
        by_pending (suc pending') (some named) v' =
            on_answer-Lists table s (record op { pending = pending' }) named q v' h w
