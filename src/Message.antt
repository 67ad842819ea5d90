-- ===== src/Message.antt =====
-- src/KadMsg.h: the address of a contact in a message, and the contacts of a response.
-- A socket address is of a family with its port and bytes, where an IPv6 address has a flow and a scope
-- as well; `XSockAddr` is not in the repository, and what its constructor leaves there is an argument.
-- `mPort` and `mAddr` are not set by the constructor for other families: what stood there is an
-- argument, too.
pub mod RoundTrip
pub mod Format
pub mod Receiving
pub mod Safety
use kad.Common.{ℕ, zero, suc, List, [], ◌∷◌, ◌++◌, take, drop, map}
use kad.NodeId.{KadId}
use kad.Contact.{Contact}

pub data SockAddr : Type 0 where
  inet : ℕ → List ℕ → SockAddr
  inet6 : ℕ → List ℕ → ℕ → ℕ → SockAddr
  other : SockAddr

-- `mFamily` is a number, UNSPEC 0, IPv4 1, IPv6 2, or what a message holds.
pub record MsgAddr : Type 0 where
  pub family : ℕ
  pub port : ℕ
  pub addr : List ℕ

-- `memcpy` of the bytes `src` to the front of `dst`.
abbrev pub copy_over : List ℕ → List ℕ → List ℕ
copy_over [] dst = dst
copy_over (b ∷ src) [] = []
copy_over (b ∷ src) (d ∷ dst) = b ∷ copy_over src dst

-- `KadMsgAddr(const XSockAddr&)`.
unfoldable pub from_sock : MsgAddr → SockAddr → MsgAddr
from_sock raw (inet port bytes) = record {
  family = 1;
  port = port;
  addr = copy_over bytes raw.addr;
}
from_sock raw (inet6 port bytes flow scope) = record {
  family = 2;
  port = port;
  addr = copy_over bytes raw.addr;
}
from_sock raw other = record raw { family = 0 }

-- `operator XSockAddr`, with the flow and the scope of a new address.
unfoldable pub to_sock : ℕ → ℕ → MsgAddr → SockAddr
to_sock flow scope m = of_family m.family
  where
    of_family : ℕ → SockAddr
    of_family zero = other
    of_family (suc zero) = inet m.port (take 4 m.addr)
    of_family (suc (suc zero)) = inet6 m.port (take 16 m.addr) flow scope
    of_family (suc (suc (suc n))) = other

-- `KadMsgContact`.
pub record MsgContact : Type 0 where
  pub id : KadId
  pub addr : MsgAddr

-- `KadMsgFindRsp(lst)`: the contacts, each by id and address.
unfoldable pub find_response : MsgAddr → List (Contact SockAddr) → List MsgContact
find_response raw [] = []
find_response raw (c ∷ cs) =
    record { id = c.id; addr = from_sock raw c.addr } ∷ find_response raw cs

-- The contacts of a response, as `OnResponce` reads them: `i->mId`, and `i->mAddr` made an address. That
-- msgpack has made the object of the message these structures comes before it.
unfoldable pub read_response : ℕ → ℕ → List MsgContact → List (KadId × SockAddr)
read_response flow scope [] = []
read_response flow scope (c ∷ cs) = (c.id, to_sock flow scope c.addr) ∷ read_response flow scope cs
