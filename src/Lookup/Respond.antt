-- ===== src/Lookup/Respond.antt =====
-- src/KadOpMgr.h, `KadIterativeFindOp::OnResponce`.
use mathlib.Core.Option
use kad.Common.{zero, suc, ◌-◌, false, ◌&&◌, ◌||◌}
use kad.Common.{Option, none, some, List, [], ◌∷◌, leb, ◌==◌, if◌then◌else◌, length}
use kad.Config.{alpha}
use kad.NodeId.{KadId, id_eq, is_zero}
use kad.Contact.{Contact, Store, is_stale}
use kad.Routing.{Node, add}
use kad.Routing.Query.{find_in}
use kad.Lookup.{FindOp, Turn, Merging, insert, holds, without, send}

module _ {ℓ} {Addr : Type ℓ} where
  -- The loop over the contacts of a response.
  unfoldable pub merge :
      KadId → FindOp Addr → List (KadId × Addr) → Merging Addr → Option (Merging Addr)
  merge local op [] t = some t
  merge local op ((id, addr) ∷ rest) t =
      if is_zero id || id_eq id local then merge local op rest t else elim (find_in id op.block) [
        | some c ↦ merge local op rest t
        | none ↦ elim (find_in id t.list) [
          | some c ↦ merge local op rest t
          | none ↦ elim (add local t.store id addr t.table) [
            | none ↦ none
            | some r ↦
                let (list, inserted) = insert op.key r.contact t.list in
                merge local op rest (record {
                  list = list;
                  table = r.node;
                  store = r.store;
                  inserted = if inserted then suc t.inserted else t.inserted;
                  in_rt = suc t.in_rt;
                })
          ]
        ]
      ]

  -- The branch of `OnResponce` for a request that timed out.
  unfoldable pub on_timeout : Node Addr → Store → FindOp Addr → Contact Addr → Option (Turn Addr)
  on_timeout table s op c =
      let op' =
        if is_stale s c
        then record op { list = without op.list c }
        else record op { block = without op.block c } in
      Option.map
        (λ (r : FindOp Addr × List (Contact Addr)). record {
          op = r.0;
          table = table;
          store = s;
          sent = r.1;
          complete = (length r.1 == 0) && (r.0.pending == 0);
          in_rt = 0;
        })
        (send s 1 op')

  -- The branch for a response.
  unfoldable pub on_answer :
      KadId → Node Addr → Store → FindOp Addr → List (KadId × Addr) → Option (Turn Addr)
  on_answer local table s op rsp =
      elim (merge local op rsp
        (record { list = op.list; table = table; store = s; inserted = 0; in_rt = 0 })) [
          | none ↦ none
          | some t ↦
              let op' = record op { list = t.list } in
              if t.inserted == 0
              then some (record {
                op = op';
                table = t.table;
                store = t.store;
                sent = [];
                complete = op.pending == 0;
                in_rt = t.in_rt;
              })
              else if leb op.pending alpha
              then Option.map
                  (λ (r : FindOp Addr × List (Contact Addr)). record {
                    op = r.0;
                    table = t.table;
                    store = t.store;
                    sent = r.1;
                    complete = false;
                    in_rt = t.in_rt;
                  })
                  (send t.store (alpha - op.pending) op')
              else none
        ]

  -- `OnResponce(rsp, contact)`, where `none` is a null response.
  unfoldable pub on_response :
      KadId
      → Node Addr
      → Store
      → FindOp Addr
      → Option (List (KadId × Addr))
      → Contact Addr
      → Option (Turn Addr)
  on_response local table s op rsp c =
      if holds op.block c
      then elim op.pending [
        | zero ↦ none
        | suc pending ↦
            let op' = record op { pending = pending } in
            elim rsp [
              | none ↦ on_timeout table s op' c
              | some named ↦ on_answer local table s op' named
            ]
      ]
      else some
          (record { op = op; table = table; store = s; sent = []; complete = false; in_rt = 0 })
