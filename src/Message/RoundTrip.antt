-- ===== src/Message/RoundTrip.antt =====
-- Addresses and contacts through a message.
use kad.Common.{ℕ, zero, suc, ◌≤◌, ◌≡◌, refl, ap, ap₂, arith, List, [], ◌∷◌, length, take, All}
use kad.NodeId.{KadId}
use kad.Contact.{Contact}
use kad.Message.{SockAddr, inet, inet6, other, MsgAddr, copy_over, from_sock, to_sock}
use kad.Message.{find_response, read_response}

-- The bytes of an address: 4, 16, or none.
abbrev pub IsSock : SockAddr → Type 0
IsSock (inet port bytes) = length bytes ≡ 4
IsSock (inet6 port bytes flow scope) = length bytes ≡ 16
IsSock other = Unit {0}

-- What a message carries of an address: not the flow and the scope of IPv6.
abbrev pub carried : ℕ → ℕ → SockAddr → SockAddr
carried flow scope (inet port bytes) = inet port bytes
carried flow scope (inet6 port bytes f s) = inet6 port bytes flow scope
carried flow scope other = other

take-copy_over :
    (n : ℕ) (src dst : List ℕ) → length src ≡ n → n ≤ length dst → take n (copy_over src dst) ≡ src
take-copy_over zero [] dst h k = refl
take-copy_over zero (b ∷ src) dst h k = absurd (omega arith)
take-copy_over (suc n) [] dst h k = absurd (omega arith)
take-copy_over (suc n) (b ∷ src) [] h k = absurd (omega arith)
take-copy_over (suc n) (b ∷ src) (d ∷ dst) h k =
    ap (λ (t : List ℕ). b ∷ t) (take-copy_over n src dst (omega arith) (omega arith))

-- For an address of 4 or 16 bytes, or of another family, whatever stood in the 16 bytes of the
-- message's address before: the address read from the message is the one written, of IPv6 with the
-- flow and the scope of a new address in place of its own.
pub to_sock-from_sock :
    (flow scope : ℕ) (raw : MsgAddr) (a : SockAddr)
    → length raw.addr ≡ 16
    → IsSock a
    → to_sock flow scope (from_sock raw a) ≡ carried flow scope a
unfolding to_sock from_sock
to_sock-from_sock flow scope raw (inet port bytes) h k =
    ap (inet port) (take-copy_over 4 bytes raw.addr k (omega (arith, h)))
to_sock-from_sock flow scope raw (inet6 port bytes f s) h k =
    ap (λ (t : List ℕ). inet6 port t flow scope)
      (take-copy_over 16 bytes raw.addr k (omega (arith, h)))
to_sock-from_sock flow scope raw other h k = refl

abbrev pub carried_all : ℕ → ℕ → List (Contact SockAddr) → List (KadId × SockAddr)
carried_all flow scope [] = []
carried_all flow scope (c ∷ cs) = (c.id, carried flow scope c.addr) ∷ carried_all flow scope cs

-- For contacts with addresses of 4 or 16 bytes, or of another family: the response made of them is
-- read as their ids and addresses, in their order, of IPv6 with the flow and the scope of a new
-- address.
pub read_response-find_response :
    (flow scope : ℕ) (raw : MsgAddr) (cs : List (Contact SockAddr))
    → length raw.addr ≡ 16
    → All (λ c. IsSock c.addr) cs
    → read_response flow scope (find_response raw cs) ≡ carried_all flow scope cs
unfolding read_response find_response
read_response-find_response flow scope raw [] h k = refl
read_response-find_response flow scope raw (c ∷ cs) h k =
    ap₂ (λ (a : SockAddr) (t : List (KadId × SockAddr)). (c.id, a) ∷ t)
      (to_sock-from_sock flow scope raw c.addr h k.0)
      (read_response-find_response flow scope raw cs h k.1)
