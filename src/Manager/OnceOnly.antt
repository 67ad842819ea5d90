-- ===== src/Manager/OnceOnly.antt =====
-- In every state that a node of src/KadOpMgr.h reaches, the handler of a lookup was called at most once.
use kad.Common.{ℕ, ◌+◌, ◌%◌, ◌^◌, ◌≡◌, refl, sym, subst, false, Option, some, none, List, []}
use kad.Common.{◌==◌, All, Distinct, Bool-cases, inl, inr}
use kad.Config.{id_size}
use kad.NodeId.{KadId}
use kad.NodeId.Value.{IsId}
use kad.Contact.{set_fail_qty}
use kad.Lookup.Answer.{IsNamed}
use kad.Lookup.Listed.{OnSome}
use kad.Manager.{next_count, Manager, Request, take_out, handle_response, handle_timeout}
use kad.Manager.Flying.{flying, Taken, taken, not_there, take_out-Taken}
use kad.Manager.Invariant.{IsManager}
use kad.Manager.Steps.{Reachable}
use kad.Manager.Kept.{Kept, Reachable-Kept}
use kad.Manager.Finished.{IsIdle, find_key-IsIdle, handle-IsIdle}

module _ {ℓ} {Addr : Type ℓ} (random : ℕ → ℕ) where
  abbrev Idles : Option (Manager Addr) → Type ℓ
  Idles = OnSome IsIdle

  handle_response-IsIdle :
      (msg_id : ℕ) (named : List (KadId × Addr)) (m : Manager Addr)
      → IsNamed (some named)
      → IsManager m
      → IsIdle m
      → Idles (handle_response random msg_id named m)
  unfolding handle_response
  handle_response-IsIdle msg_id named m n v i = elim (Bool-cases (msg_id == 0)) [
    | inl none_sent ↦ rw none_sent i
    | inr some_sent ↦
        by_request some_sent (take_out (λ r. r.msg_id == msg_id) m.requests) refl
          (take_out-Taken (λ r. r.msg_id == msg_id) m.requests)
  ]
    where
      by_request :
          (msg_id == 0) ≡ false
          → (o : Option (Request Addr × List (Request Addr)))
          → take_out (λ r. r.msg_id == msg_id) m.requests ≡ o
          → Taken m.requests o
          → Idles (handle_response random msg_id named m)
      by_request sent _ q (taken xs ys r e) =
          rw (sent, q, handle_response)
            (handle-IsIdle random m v xs r ys e (set_fail_qty m.store r.dst.ref 0)
              (next_count m.req_succ) m.req_fail (some named) n i)
      by_request sent _ q not_there =
          rw (sent, q, handle_response) (record { once = i.once; there = i.there; idle = i.idle })

  handle_timeout-IsIdle :
      (serial : ℕ) (m : Manager Addr)
      → IsManager m
      → IsIdle m
      → Idles (handle_timeout random serial m)
  unfolding handle_timeout
  handle_timeout-IsIdle serial m v i =
      by_request (take_out (λ r. r.serial == serial) m.requests) refl
        (take_out-Taken (λ r. r.serial == serial) m.requests)
    where
      by_request :
          (o : Option (Request Addr × List (Request Addr)))
          → take_out (λ r. r.serial == serial) m.requests ≡ o
          → Taken m.requests o
          → Idles (handle_timeout random serial m)
      by_request _ q (taken xs ys r e) =
          rw (q, handle_timeout)
            (handle-IsIdle random m v xs r ys e
              (set_fail_qty m.store r.dst.ref ((m.store.fail_qty r.dst.ref + 1) % 2 ^ 32))
              m.req_succ (next_count m.req_fail) none tt i)
      by_request _ q not_there = rw (q, handle_timeout) i

  Kept-IsIdle : Kept {Addr = Addr} random IsIdle
  Kept-IsIdle = record {
    at_same = λ m m' s i. record {
      once = subst Distinct (sym s.finished) i.once;
      there = rw (s.finished, s.lookups) i.there;
      idle = rw (s.finished, s.requests) i.idle;
    };
    at_find = λ key m v i. find_key-IsIdle random key m i;
    at_response = handle_response-IsIdle;
    at_timeout = handle_timeout-IsIdle;
  }

  -- In every state that a node with an id of 20 bytes can reach, the handler of no lookup was
  -- called twice, and a lookup whose handler was called has no request without an answer.
  pub Reachable-Distinct :
      (local : KadId) (m : Manager Addr)
      → IsId id_size local
      → Reachable random local m
      → Distinct m.finished × All (λ k. flying k m.requests ≡ []) m.finished
  Reachable-Distinct local m l r =
      let i =
        Reachable-Kept random IsIdle Kept-IsIdle local m l
          (record { once = tt; there = tt; idle = tt }) r in
      (i.once, i.idle)
