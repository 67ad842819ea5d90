-- ===== src/Tests/Transport.antt =====
-- src/KadOverIP.h: a listener on socket 3 with a connection on socket 4.
use kad.Common.{◌≡◌, refl, arith, true, some, none, [], ◌∷◌, ◌++◌, Bytes}
use kad.Transport.{ConnectionMgr, ready, poll}
use kad.Transport.Delivery.{accepted_unheard}

abbrev hello : Bytes
hello = 1 ∷ 2 ∷ []

abbrev waiting : ConnectionMgr
waiting = record {
  connections = 4 ∷ [];
  listener = some 3;
  watched = 3 ∷ 4 ∷ [];
  closed = [];
  running = true;
}

accepted_unheard_example :
    (poll (ready 3 (some 7) none ∷ []) waiting
      ≡ (record waiting { watched = waiting.watched ++ 7 ∷ [] }, []))
    × (poll
          (ready 7 none (some hello) ∷ [])
          (record waiting { watched = waiting.watched ++ 7 ∷ [] })
        ≡ (record waiting { watched = waiting.watched ++ 7 ∷ [] }, []))
accepted_unheard_example =
    accepted_unheard waiting 3 7 none none hello refl (omega arith, tt) (omega arith)
