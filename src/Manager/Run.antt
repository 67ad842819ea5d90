-- ===== src/Manager/Run.antt =====
-- The operations of the manager keep its invariant.
use kad.Common.{ℕ, ◌+◌, ◌%◌, ◌^◌, ◌<◌, ◌≡◌, ◌≢◌, refl, sym, ap, subst, ◌∙◌, arith, false}
use kad.Common.{
  List, [], ◌∷◌, ◌++◌, length, set, length-set, All, All-right, All-removed, Option, some, none,
}
use kad.Common.{Bool-cases, inl, inr, ◌==◌, if◌then◌else◌}
use kad.Config.{id_size}
use kad.NodeId.{KadId}
use kad.NodeId.Value.{IsId}
use kad.Contact.{Contact, Store, set_fail_qty}
use kad.Routing.Invariant.{IsTable}
use kad.Lookup.{FindOp, Turn}
use kad.Lookup.Pending.{Tracks}
use kad.Lookup.Answer.{IsNamed, on_response_lem}
use kad.Manager.{
  next_count, Request, Manager, nth, take_out, post, settle, handle, handle_response,
  handle_timeout,
}
use kad.Manager.Flying.{
  flying, flying-append, flying_own, flying_other, flying-post, flying-post_other,
}
use kad.Manager.Flying.{post-Posts, Taken, taken, not_there, take_out-Taken}
use kad.Manager.Invariant.{AllTrack, IsManager, nth-some, AllTrack-nth, AllTrack-set}

module _ {ℓ} {Addr : Type ℓ} (random : ℕ → ℕ) where
  -- The operation returns, and the manager keeps its invariant.
  abbrev pub Keeps : Option (Manager Addr) → Type ℓ
  Keeps o = (m' : Manager Addr) × (o ≡ some m') × IsManager m'

  -- The call of a handler, after its request was taken out and the contact and counters changed.
  module _ (m : Manager Addr) (v : IsManager m) (xs : List (Request Addr)) (r : Request Addr)
      (ys : List (Request Addr)) (e : m.requests ≡ xs ++ r ∷ ys) (s : Store) (succ fail : ℕ)
      (rsp : Option (List (KadId × Addr))) (n : IsNamed rsp) where
    abbrev pub left : Manager Addr
    left = record m { requests = xs ++ ys; store = s; req_succ = succ; req_fail = fail }

    known_all : All (λ (t : Request Addr). t.lookup < length m.lookups) (xs ++ r ∷ ys)
    known_all =
        subst (λ (t : List (Request Addr)). All (λ q. q.lookup < length m.lookups) t) e v.known

    pub own_lookup : r.lookup < length m.lookups
    own_lookup =
        (All-right (λ (t : Request Addr). t.lookup < length m.lookups) xs (r ∷ ys) known_all).0

    pub own-Tracks :
        (op : FindOp Addr)
        → nth m.lookups r.lookup ≡ some op
        → Tracks op (flying r.lookup xs ++ r.dst ∷ flying r.lookup ys)
    own-Tracks op q =
        let base : 0 + r.lookup ≡ r.lookup = omega arith in
        subst (Tracks op)
          (ap (λ (k : ℕ). flying k m.requests) base ∙ ap (flying r.lookup) e ∙ flying_own xs r ys)
          (AllTrack-nth 0 m.lookups m.requests r.lookup op v.tracks q)

    settled-IsManager :
        (turn : Turn Addr)
        → IsTable m.local 0 0 turn.table
        → Tracks turn.op ((flying r.lookup xs ++ flying r.lookup ys) ++ turn.sent)
        → IsManager (settle random r.lookup turn left)
    settled-IsManager turn table tracks =
        let k = r.lookup in
        let base : Manager Addr = record left {
          table = turn.table;
          store = turn.store;
          lookups = set m.lookups k turn.op;
          finished = if turn.complete then m.finished ++ k ∷ [] else m.finished;
          cont_in_rt = (m.cont_in_rt + turn.in_rt) % 2 ^ 32;
        } in
        let p = post-Posts random k turn.sent base in
        let m' = post random k turn.sent base in
        let zero_base : 0 + k ≡ k = omega arith in
        let same : length (set m.lookups k turn.op) ≡ length m.lookups =
          length-set m.lookups k turn.op in
        let rest =
          All-removed (λ (t : Request Addr). t.lookup < length m.lookups) xs r ys known_all in
        let own : flying k m'.requests ≡ (flying k xs ++ flying k ys) ++ turn.sent =
          flying-post random k turn.sent base
          ∙ ap (λ (t : List (Contact Addr)). t ++ turn.sent) (flying-append k xs ys) in
        record {
          local_id = subst (IsId id_size) (sym p.local) v.local_id;
          table =
              subst (λ (t : KadId). IsTable t 0 0 m'.table) (sym p.local)
                (subst (IsTable m.local 0 0) (sym p.table) table);
          known =
              subst (λ (t : List (FindOp Addr)). All (λ q. q.lookup < length t) m'.requests)
                (sym p.lookups)
                (p.known (length (set m.lookups k turn.op)) (omega (arith, same, own_lookup)) (
                  subst (λ (n : ℕ). All (λ (q : Request Addr). q.lookup < n) (xs ++ ys)) (sym same)
                    rest));
          tracks =
              subst (λ (t : List (FindOp Addr)). AllTrack 0 t m'.requests) (sym p.lookups)
                (AllTrack-set 0 m.lookups m.requests m'.requests k turn.op v.tracks
                  (λ i ne.
                    let away : k ≢ i = λ q. ne (zero_base ∙ q) in
                    flying-post_other random k i turn.sent base away
                    ∙ sym (flying_other i xs r ys away)
                    ∙ ap (flying i) (sym e))
                  (subst (Tracks turn.op)
                    (sym (ap (λ (t : ℕ). flying t m'.requests) zero_base ∙ own)) tracks));
        }

    handle-IsManager : Keeps (handle random rsp r left)
    unfolding handle
    handle-IsManager =
        let (op, q) = nth-some m.lookups r.lookup own_lookup in
        let (turn, done, table, tracks) =
          on_response_lem m.local v.local_id op (flying r.lookup xs) r.dst (flying r.lookup ys)
            (own-Tracks op q) s m.table v.table rsp n in
        (
          settle random r.lookup turn left,
          rw (q, done, handle) refl,
          settled-IsManager turn table tracks,
        )

  -- In a manager that keeps its invariant, for ids of 20 bytes, `HandleResponse` returns and the
  -- manager keeps its invariant.
  pub handle_response-IsManager :
      (msg_id : ℕ) (named : List (KadId × Addr)) (m : Manager Addr)
      → IsManager m
      → IsNamed (some named)
      → Keeps (handle_response random msg_id named m)
  unfolding handle_response
  handle_response-IsManager msg_id named m v n = elim (Bool-cases (msg_id == 0)) [
    | inl none_sent ↦ rw none_sent (m, refl, v)
    | inr some_sent ↦
        by_request some_sent (take_out (λ r. r.msg_id == msg_id) m.requests) refl
          (take_out-Taken (λ r. r.msg_id == msg_id) m.requests)
  ]
    where
      by_request :
          (msg_id == 0) ≡ false
          → (o : Option (Request Addr × List (Request Addr)))
          → take_out (λ r. r.msg_id == msg_id) m.requests ≡ o
          → Taken m.requests o
          → Keeps (handle_response random msg_id named m)
      by_request sent _ q (taken xs ys r e) =
          rw (sent, q, handle_response)
            (handle-IsManager m v xs r ys e (set_fail_qty m.store r.dst.ref 0)
              (next_count m.req_succ) m.req_fail (some named) n)
      by_request sent _ q not_there =
          rw (sent, q, handle_response)
            (
              record m { rsp_unkn = next_count m.rsp_unkn },
              refl,
              record { local_id = v.local_id; table = v.table; known = v.known; tracks = v.tracks },
            )

  -- In a manager that keeps its invariant `HandleTimeout` returns and the manager keeps its
  -- invariant.
  pub handle_timeout-IsManager :
      (serial : ℕ) (m : Manager Addr) → IsManager m → Keeps (handle_timeout random serial m)
  unfolding handle_timeout
  handle_timeout-IsManager serial m v =
      by_request (take_out (λ r. r.serial == serial) m.requests) refl
        (take_out-Taken (λ r. r.serial == serial) m.requests)
    where
      by_request :
          (o : Option (Request Addr × List (Request Addr)))
          → take_out (λ r. r.serial == serial) m.requests ≡ o
          → Taken m.requests o
          → Keeps (handle_timeout random serial m)
      by_request _ q (taken xs ys r e) =
          rw (q, handle_timeout)
            (handle-IsManager m v xs r ys e
              (set_fail_qty m.store r.dst.ref ((m.store.fail_qty r.dst.ref + 1) % 2 ^ 32))
              m.req_succ (next_count m.req_fail) none tt)
      by_request _ q not_there = rw (q, handle_timeout) (m, refl, v)
