-- ===== src/DockerProc/Bindings.antt =====
-- crates/docker-proc/src/lib.rs: `PortBinding`, `get_container_port_bindings` and the ports of a
-- `Process`. What JSON makes of the output of docker is an argument; none is a panic.
pub mod Published
use minibot_rust.Base.{
  ℕ, Bool, true, false, List, [], ◌∷◌, ◌++◌, Option, none, some, if◌then◌else◌, Bytes, is_empty,
  eq_bytes, ◌==◌, ◌&&◌,
}
use minibot_rust.IrcRaw.Slice.{split}
use minibot_rust.DockerProc.Numbers.{parse_u16}
use minibot_rust.DockerProc.{
  PortProtocol, tcp, udp, from_str, InternalPort, Ips, PortMapping, insert_port,
}

infixl 5 ◌>>=◌
abbrev pub ◌>>=◌ : {A B : Type 0} → Option A → (A → Option B) → Option B
none >>= f = none
some a >>= f = f a

pub record PortBinding (IpAddr : Type 0) : Type 0 where
  pub internal_port : InternalPort
  pub interface : IpAddr
  pub external_port : ℕ

-- `PortBindingInner`.
pub record PortBindingInner : Type 0 where
  pub host_ip : Bytes
  pub host_port : Bytes

same_protocol : PortProtocol → PortProtocol → Bool
same_protocol tcp tcp = true
same_protocol udp udp = true
same_protocol _ _ = false

-- `==` on `InternalPort`.
unfoldable pub same_port : InternalPort → InternalPort → Bool
unfolding same_protocol
same_port p q = same_protocol p.protocol q.protocol && p.port == q.port

read_internal : List Bytes → Option InternalPort
read_internal (port ∷ protocol ∷ []) = do
  n ← parse_u16 port
  p ← from_str protocol
  some (record { protocol = p; port = n })
read_internal _ = none

module _ {IpAddr : Type 0} (ips : Ips IpAddr) where
  unfoldable pub read_interface : Bytes → Option IpAddr
  read_interface host_ip = if is_empty host_ip then some ips.unspecified else ips.parse_ip host_ip

  unfoldable pub from_inner_binding : Bytes → PortBindingInner → Option (PortBinding IpAddr)
  unfolding read_internal read_interface
  from_inner_binding inner_spec b = do
    internal ← read_internal (split b'/' inner_spec)
    interface ← read_interface b.host_ip
    external ← parse_u16 b.host_port
    some (record { internal_port = internal; interface = interface; external_port = external })

  -- The bindings of one port.
  unfoldable pub from_inner_bindings :
      Bytes → List PortBindingInner → Option (List (PortBinding IpAddr))
  unfolding from_inner_binding
  from_inner_bindings k [] = some []
  from_inner_bindings k (b ∷ bs) = do
    binding ← from_inner_binding k b
    rest ← from_inner_bindings k bs
    some (binding ∷ rest)

  -- `get_container_port_bindings`: a port that is not published is null.
  unfoldable pub get_container_port_bindings :
      List (Bytes × Option (List PortBindingInner)) → Option (List (PortBinding IpAddr))
  unfolding from_inner_bindings
  get_container_port_bindings [] = some []
  get_container_port_bindings ((k, none) ∷ rest) = get_container_port_bindings rest
  get_container_port_bindings ((k, some bs) ∷ rest) = do
    here ← from_inner_bindings k bs
    later ← get_container_port_bindings rest
    some (here ++ later)

module _ {IpAddr : Type 0} where
  -- `port_to_names.get`: of two names of one port, a `HashMap` keeps the one that comes last.
  unfoldable pub name_of : InternalPort → List (Bytes × PortMapping IpAddr) → Option Bytes
  name_of p [] = none
  name_of p ((name, m) ∷ rest) = elim (name_of p rest) [
    | some later ↦ some later
    | none ↦ (if same_port m.internal_port p then some name else none)
  ]

  -- The map of the ports by their names, with the last of two bindings under one name.
  unfoldable pub named_bindings :
      List (Bytes × PortMapping IpAddr)
      → List (PortBinding IpAddr)
      → List (Bytes × PortBinding IpAddr)
      → Option (List (Bytes × PortBinding IpAddr))
  unfolding name_of insert_port
  named_bindings ports [] found = some found
  named_bindings ports (b ∷ bs) found = do
    name ← name_of b.internal_port ports
    named_bindings ports bs (insert_port name b found)

unfoldable pub lookup : {V : Type 0} → Bytes → List (Bytes × V) → Option V
lookup name [] = none
lookup name ((k, v) ∷ rest) = if eq_bytes k name then some v else lookup name rest

module _ {IpAddr : Type 0} where
  -- `Process::port_address`.
  unfoldable pub port_address : Bytes → List (Bytes × PortBinding IpAddr) → Option (IpAddr × ℕ)
  unfolding lookup
  port_address name ports = elim (lookup name ports) [
    | none ↦ none
    | some b ↦ some (b.interface, b.external_port)
  ]
