-- ===== src/Manager/Finished.antt =====
-- A lookup's handler is called once, when none of its requests is waiting (src/KadOpMgr.h, `Complete`).
use kad.Common.{
  ◌+◌, ◌%◌, ◌^◌, ℕ, ◌<◌, ◌≡◌, ◌≢◌, refl, sym, ap, subst, ◌∙◌, arith, true, Option, List, [], ◌∷◌,
  ◌++◌,
}
use kad.Common.{
  length, length-append, length-set, if◌then◌else◌, set, All, All-imp, All-append, All-zip, Apart,
  Distinct, Distinct-append, Bool-cases, inl, inr,
}
use kad.NodeId.{KadId}
use kad.Contact.{Contact, Store}
use kad.Lookup.{Turn, new_find, start}
use kad.Lookup.Pending.{Tracks}
use kad.Lookup.Answer.{IsNamed, on_response_lem}
use kad.Lookup.Asked.{sent_op, sent_to, send-some}
use kad.Lookup.Listed.{OnSome}
use kad.Manager.{Manager, Request, post, settle, handle, find_key}
use kad.Manager.Flying.{
  flying, flying-append, flying_own, flying_other, flying-post, flying-post_other, post-Posts,
}
use kad.Manager.Invariant.{IsManager, nth-some}
use kad.Manager.Run.{left, own_lookup, own-Tracks}
use kad.Lookup.Completes.{on_response-Completes}

nothing_left {ℓ} : {A : Type ℓ} (xs : List A) → length xs ≡ 0 → xs ≡ []
nothing_left [] h = refl
nothing_left (x ∷ xs) h = absurd (omega (arith, h))

module _ {ℓ} {Addr : Type ℓ} where
  -- The lookups whose handlers were called: each once, and none has a request without an answer.
  pub record IsIdle (m : Manager Addr) : Type ℓ where
    pub once : Distinct m.finished
    pub there : All (λ k. k < length m.lookups) m.finished
    pub idle : All (λ k. flying k m.requests ≡ []) m.finished

  module _ (random : ℕ → ℕ) where
    post-finished :
        (k : ℕ) (cs : List (Contact Addr)) (m : Manager Addr)
        → (post random k cs m).finished ≡ m.finished
    unfolding post
    post-finished k [] m = refl
    post-finished k (c ∷ cs) m = post-finished k cs _

    pub find_key-IsIdle :
        (key : KadId) (m : Manager Addr) → IsIdle m → OnSome IsIdle (find_key random key m)
    unfolding find_key start
    find_key-IsIdle key m i =
        let op = new_find m.local m.store m.table key in
        let k = length m.lookups in
        let sent = sent_to m.store 2 op in
        let base : Manager Addr = record m { lookups = m.lookups ++ sent_op m.store 2 op ∷ [] } in
        let p = post-Posts random k sent base in
        let longer = length-append m.lookups (sent_op m.store 2 op ∷ []) in
        let same = post-finished k sent base in
        rw (send-some m.store 2 op) (record {
          once = subst Distinct (sym same) i.once;
          there =
              subst (All (λ j. j < length (post random k sent base).lookups)) (sym same)
                (All-imp (λ j h. omega (arith, h, longer, ap length p.lookups)) m.finished i.there);
          idle = subst (All (λ j. flying j (post random k sent base).requests ≡ [])) (sym same) (
              All-zip
                (λ j h q.
                  flying-post_other random k j sent base (λ z. absurd (omega (arith, z, h))) ∙ q)
                m.finished i.there i.idle);
        })

    module _ (m : Manager Addr) (v : IsManager m) (xs : List (Request Addr)) (r : Request Addr)
        (ys : List (Request Addr)) (e : m.requests ≡ xs ++ r ∷ ys) (s : Store) (succ fail : ℕ)
        (rsp : Option (List (KadId × Addr))) (n : IsNamed rsp) (i : IsIdle m) where
      abbrev without_r : Manager Addr
      without_r = left random m v xs r ys e s succ fail rsp n

      -- The lookup of the request has not called its handler yet.
      not_finished : Apart r.lookup m.finished
      not_finished =
          All-imp
            (λ k q same.
              let nothing : flying r.lookup xs ++ r.dst ∷ flying r.lookup ys ≡ [] =
                sym (flying_own xs r ys)
                ∙ sym (ap (flying r.lookup) e)
                ∙ subst (λ (x : ℕ). flying x m.requests ≡ []) same q in
              absurd (
                omega (
                  arith,
                  ap length nothing,
                  length-append (flying r.lookup xs) (r.dst ∷ flying r.lookup ys),
                )))
            m.finished i.idle

      listed-IsIdle :
          (m' : Manager Addr) (finished : List ℕ)
          → m'.finished ≡ finished
          → Distinct finished
          → All (λ k. k < length m'.lookups) finished
          → All (λ k. flying k m'.requests ≡ []) finished
          → IsIdle m'
      listed-IsIdle m' finished e' o t q = record {
        once = subst Distinct (sym e') o;
        there = subst (All (λ k. k < length m'.lookups)) (sym e') t;
        idle = subst (All (λ k. flying k m'.requests ≡ [])) (sym e') q;
      }

      settled-IsIdle :
          (turn : Turn Addr)
          → (turn.complete ≡ true → turn.op.pending ≡ 0)
          → Tracks turn.op ((flying r.lookup xs ++ flying r.lookup ys) ++ turn.sent)
          → IsIdle (settle random r.lookup turn without_r)
      settled-IsIdle turn done t =
          let k = r.lookup in
          let base : Manager Addr = record without_r {
            table = turn.table;
            store = turn.store;
            lookups = set m.lookups k turn.op;
            finished = if turn.complete then m.finished ++ k ∷ [] else m.finished;
            cont_in_rt = (m.cont_in_rt + turn.in_rt) % 2 ^ 32;
          } in
          let m' = post random k turn.sent base in
          let same = post-finished k turn.sent base in
          let size : length m'.lookups ≡ length m.lookups =
            ap length (post-Posts random k turn.sent base).lookups
            ∙ length-set m.lookups k turn.op in
          let own : flying k m'.requests ≡ (flying k xs ++ flying k ys) ++ turn.sent =
            flying-post random k turn.sent base
            ∙ ap (λ (t : List (Contact Addr)). t ++ turn.sent) (flying-append k xs ys) in
          let there : All (λ j. j < length m'.lookups) m.finished =
            All-imp (λ j h. omega (arith, h, size)) m.finished i.there in
          let idle : All (λ j. flying j m'.requests ≡ []) m.finished =
            All-zip
              (λ j ne q.
                let away : k ≢ j = λ z. ne (sym z) in
                flying-post_other random k j turn.sent base away
                ∙ sym (flying_other j xs r ys away)
                ∙ sym (ap (flying j) e)
                ∙ q)
              m.finished not_finished i.idle in
          elim (Bool-cases turn.complete) [
            | inr open' ↦
                let ends : (if turn.complete then m.finished ++ k ∷ [] else m.finished)
                    ≡ m.finished =
                  rw open' refl in
                listed-IsIdle m' m.finished (same ∙ ends) i.once there idle
            | inl closed ↦
                let ends : (if turn.complete then m.finished ++ k ∷ [] else m.finished)
                    ≡ m.finished ++ k ∷ [] =
                  rw closed refl in
                let gone = nothing_left _ (sym t.counted ∙ done closed) in
                listed-IsIdle m' (m.finished ++ k ∷ []) (same ∙ ends)
                  (Distinct-append m.finished k i.once not_finished)
                  (All-append (λ j. j < length m'.lookups) m.finished (k ∷ []) there
                    (omega (arith, size, own_lookup random m v xs r ys e s succ fail rsp n), tt))
                  (All-append (λ j. flying j m'.requests ≡ []) m.finished (k ∷ []) idle
                    (own ∙ gone, tt))
          ]

      pub handle-IsIdle : OnSome IsIdle (handle random rsp r without_r)
      unfolding handle
      handle-IsIdle =
          let (op, q) =
            nth-some m.lookups r.lookup (own_lookup random m v xs r ys e s succ fail rsp n) in
          let (turn, done, table, tracks) =
            on_response_lem m.local v.local_id op (flying r.lookup xs) r.dst (flying r.lookup ys)
              (own-Tracks random m v xs r ys e s succ fail rsp n op q) s m.table v.table rsp n in
          let completes = on_response-Completes m.local m.table s op rsp r.dst in
          rw (q, done, handle) (settled-IsIdle turn ((rw done at completes).0) tracks)
