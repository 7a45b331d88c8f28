-- ===== src/DockerProc/Bindings/Published.antt =====
-- crates/docker-proc/src/lib.rs: the address of a port that a builder has published, as docker
-- reports it.
use minibot_rust.Base.{
  ℕ, ◌<◌, ◌≡◌, ◌≢◌, refl, ap, ◌∙◌, List, [], ◌∷◌, map, Option, some, Bytes, eq_bytes, Lacks, All,
  All-imp, arith,
}
use minibot_rust.IrcRaw.Slice.{split, split-append, split-Lacks}
use minibot_rust.DockerProc.Numbers.{show_u16, parse_u16-show_u16, IsDigit, show_u16-IsDigit}
use minibot_rust.DockerProc.{
  PortProtocol, tcp, udp, as_str, from_str, InternalPort, to_arg, Ips, PortMapping, insert_port,
}
use minibot_rust.DockerProc.Bindings.{
  PortBinding, PortBindingInner, read_interface, from_inner_binding,
}

show_u16-Lacks : (n : ℕ) → Lacks b'/' (show_u16 n)
show_u16-Lacks n =
    All-imp IsDigit (λ c. c ≢ b'/') (λ c h. ground (arith, h)) (show_u16 n) (show_u16-IsDigit n)

from_str-as_str : (p : PortProtocol) → from_str (as_str p) ≡ some p
unfolding from_str as_str eq_bytes
from_str-as_str tcp = refl
from_str-as_str udp = refl

as_str-Lacks : (p : PortProtocol) → Lacks b'/' (as_str p)
unfolding as_str
as_str-Lacks tcp = omega arith
as_str-Lacks udp = omega arith

to_arg-split : (p : InternalPort) → split b'/' (to_arg p) ≡ show_u16 p.port ∷ as_str p.protocol ∷ []
unfolding to_arg
to_arg-split p =
    split-append b'/' (show_u16 p.port) (as_str p.protocol) (show_u16-Lacks p.port)
    ∙ ap (◌∷◌ (show_u16 p.port)) (split-Lacks b'/' (as_str p.protocol) (as_str-Lacks p.protocol))

module _ {IpAddr : Type 0} (ips : Ips IpAddr) where
  -- A port that docker reports: its number and protocol in the form that the builder gave them to
  -- docker, an address that is read, and a port number. It is read back as it is.
  pub from_inner_binding-to_arg :
      (p : InternalPort) (host : Bytes) (ip : IpAddr) (external : ℕ)
      → p.port < 65536
      → external < 65536
      → read_interface ips host ≡ some ip
      → from_inner_binding ips (to_arg p) (record { host_ip = host; host_port = show_u16 external })
        ≡ some (record { internal_port = p; interface = ip; external_port = external })
  unfolding from_inner_binding
  from_inner_binding-to_arg p host ip external h k read = rw (to_arg-split p) (
      rw (parse_u16-show_u16 p.port h)
        (rw (from_str-as_str p.protocol, read, parse_u16-show_u16 external k) refl))

-- A port with its name, and what docker reports for it.
pub record Published (IpAddr : Type 0) : Type 0 where
  pub name : Bytes
  pub mapping : PortMapping IpAddr
  pub host : Bytes
  pub ip : IpAddr
  pub external : ℕ

module _ {IpAddr : Type 0} where
  abbrev pub inner : Published IpAddr → InternalPort
  inner x = x.mapping.internal_port

  abbrev pub binding_of : Published IpAddr → PortBinding IpAddr
  binding_of x = record { internal_port = inner x; interface = x.ip; external_port = x.external }

  -- Two published ports have other names and other ports in the container.
  abbrev pub Apart : Published IpAddr → Published IpAddr → Type 0
  Apart x y = (x.name ≢ y.name) × (inner x ≢ inner y)

  abbrev pub Distinct : List (Published IpAddr) → Type 0
  Distinct [] = Unit
  Distinct (x ∷ xs) = All (Apart x) xs × Distinct xs

  abbrev pub ports_of : List (Published IpAddr) → List (Bytes × PortMapping IpAddr)
  ports_of xs = map (λ (x : Published IpAddr). (x.name, x.mapping)) xs

  insert_all :
      List (Published IpAddr)
      → List (Bytes × PortBinding IpAddr)
      → List (Bytes × PortBinding IpAddr)
  insert_all [] found = found
  insert_all (x ∷ xs) found = insert_all xs (insert_port x.name (binding_of x) found)

module _ {IpAddr : Type 0} (ips : Ips IpAddr) where
  -- What docker reports for a published port can be read: its numbers are a `u16` each, and its
  -- address an IP address.
  abbrev pub Readable : Published IpAddr → Type 0
  Readable x =
      ((inner x).port < 65536) × (x.external < 65536) × (read_interface ips x.host ≡ some x.ip)

  abbrev pub reported : List (Published IpAddr) → List (Bytes × Option (List PortBindingInner))
  reported [] = []
  reported (x ∷ xs) =
      (to_arg (inner x), some (record { host_ip = x.host; host_port = show_u16 x.external } ∷ []))
      ∷ reported xs
