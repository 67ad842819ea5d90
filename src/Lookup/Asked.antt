-- ===== src/Lookup/Asked.antt =====
-- `Send` as the lookup uses it.
use kad.Common.{ℕ, suc, ◌+◌, ◌≤◌, ◌<◌, ◌≡◌, ◌⊎◌, refl, sym, arith, true, false}
use kad.Common.{List, [], ◌++◌, length, All, inl, inr, some, All-imp}
use mathlib.Core.List.{append-nil}
use kad.Config.{stale_limit}
use kad.Contact.{Contact, Store, is_stale}
use kad.Lookup.{FindOp, Sending, holds, send_passes, send}
use kad.Lookup.Sent.{Once, Sent, send_passes-Sent}
use kad.Lookup.Reach.{send_passes-Reached}

module _ {ℓ} {Addr : Type ℓ} (s : Store) (n : ℕ) (op : FindOp Addr) where
  abbrev pub before_send : Sending Addr
  before_send = record { block = op.block; sent = []; done = false }

  abbrev pub after_send : Sending Addr
  after_send = send_passes s (suc n) stale_limit 0 op.list before_send

  pub after_send-Sent : Sent s (suc n) op.block after_send
  after_send-Sent =
      send_passes-Sent s (suc n) op.block stale_limit 0 (omega arith) op.list before_send (record {
        block = sym (append-nil op.block);
        fits = omega arith;
        flag = ground arith;
        new = tt;
        once = λ o. o;
      })

  -- The lookup after `Send(n + 1)`, and the contacts that it asked.
  abbrev pub sent_op : FindOp Addr
  sent_op = record op { block = after_send.block; pending = op.pending + length after_send.sent }

  abbrev pub sent_to : List (Contact Addr)
  sent_to = after_send.sent

  pub send-some : send s (suc n) op ≡ some (sent_op, sent_to)
  unfolding send
  send-some = refl

  -- `Send(n + 1)` returns; the list of the lookup is as before; the contacts that it asks, at most
  -- n + 1, are put at the end of those blocked and counted as pending; none of them was blocked or
  -- is stale; and if they are fewer than n + 1, then every contact of the list is stale or
  -- blocked.
  pub send_lem :
      (r : FindOp Addr × List (Contact Addr)) × (send s (suc n) op ≡ some r)
      × (r.0.list ≡ op.list)
      × (r.0.block ≡ op.block ++ r.1)
      × (r.0.pending ≡ op.pending + length r.1)
      × (length r.1 ≤ suc n)
      × All (λ c. (holds op.block c ≡ false) × (s.fail_qty c.ref < stale_limit)) r.1
      × ((length r.1 ≡ suc n)
          ⊎ All (λ c. (is_stale s c ≡ true) ⊎ (holds r.0.block c ≡ true)) op.list)
  unfolding is_stale
  send_lem =
      let k = after_send-Sent in
      (
        (sent_op, sent_to),
        send-some,
        refl,
        k.block,
        refl,
        k.fits,
        k.new,
        elim (send_passes-Reached s (suc n) stale_limit 0 op.list before_send) [
          | inl over ↦ inl (ground (arith, k.flag, k.fits))
          | inr rest ↦ inr (
              All-imp
                (λ (c : Contact Addr) r. elim r [
                  | inl less ↦ absurd (omega (arith, less))
                  | inr (inl more) ↦ inl (ground (arith, more))
                  | inr (inr there) ↦ inr there
                ])
                op.list rest)
        ],
      )

  -- `Send(n + 1)` blocks no contact twice.
  pub send-Once : Once op.block → Once sent_op.block
  send-Once o = after_send-Sent.once o
