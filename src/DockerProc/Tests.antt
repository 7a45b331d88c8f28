-- ===== src/DockerProc/Tests.antt =====
-- Concrete runs of the container processes.
use minibot_rust.Base.{ℕ, zero, suc, true, false, List, [], ◌∷◌, map, Option, some, Bytes, codes}
use minibot_rust.DockerProc.{tcp, udp, Ips, PortMapping, ProcessBuilder, new_builder, kill}
use minibot_rust.DockerProc.Bindings.Published.{Published}
use minibot_rust.DockerProc.Lines.InOrder.{InOrder}
use minibot_rust.DockerProc.Process.{Process, Outside}

-- An address is its text.
abbrev ips : Ips Bytes
ips = record { show_ip = λ t. t; parse_ip = λ t. some t; unspecified = codes "0.0.0.0" }

abbrev web : PortMapping Bytes
web = record {
  internal_port = record { protocol = tcp; port = 80 };
  interface = codes "127.0.0.1";
  external_port = some 8080;
}

abbrev db : PortMapping Bytes
db = record web { internal_port = record { protocol = udp; port = 53 } }

abbrev published : List (Published Bytes)
published =
    record { name = codes "web"; mapping = web; host = codes "1"; ip = codes "1"; external = 8080 }
    ∷ record { name = codes "db"; mapping = db; host = []; ip = codes "0.0.0.0"; external = 9 }
    ∷ []

abbrev empty : ProcessBuilder Bytes
empty = record (new_builder {IpAddr = Bytes} (codes "img")) { vars = (codes "B", codes "1") ∷ [] }

abbrev with_var : ProcessBuilder Bytes
with_var = record empty { vars = (codes "A", codes "=2") ∷ (codes "B", codes "1") ∷ [] }

abbrev lines : List Bytes
lines = codes "xa" ∷ codes "b" ∷ []

abbrev stream : List (Option Bytes)
stream = map some lines

-- A byte, many times.
repeat : ℕ → Bytes
repeat zero = []
repeat (suc n) = b'f' ∷ repeat n

abbrev process : Process
process = record {
  running = true;
  threads = true;
  id = codes "id";
  exit_signal = kill;
  killed = [];
  waited = false;
}

abbrev works : Outside
works = record { kill_works = true; wait_works = true; threads_panicked = false }
