-- ===== src/DockerProc.antt =====
-- crates/docker-proc/src/lib.rs: the parts of the library that starts processes in containers which
-- do not talk to the system: the arguments of the command line, the builder, the reading of the
-- ports that docker reports, the waiting for lines, and the end of a process. Texts are bytes, and an
-- `IpAddr` of the standard library is a parameter with its two conversions.
pub mod Numbers
pub mod Args
pub mod Bindings
pub mod Lines
pub mod Process
mod Tests
use minibot_rust.Base.{
  ℕ, Bool, true, false, List, [], ◌∷◌, ◌++◌, Option, none, some, ◌==◌, ◌&&◌, ◌||◌, leb,
  if◌then◌else◌, Bytes, codes, all, eq_bytes, Outcome, ok, panic, assert, ◌>>=◌, ◌>>◌,
}
use minibot_rust.DockerProc.Numbers.{show_u16}

pub data PortProtocol : Type 0 where
  tcp udp : PortProtocol

unfoldable pub as_str : PortProtocol → Bytes
as_str tcp = codes "tcp"
as_str udp = codes "udp"

-- An unknown name is a panic.
unfoldable pub from_str : Bytes → Option PortProtocol
from_str t =
    if eq_bytes t (codes "tcp")
    then some tcp
    else (if eq_bytes t (codes "udp") then some udp else none)

pub record InternalPort : Type 0 where
  pub protocol : PortProtocol
  pub port : ℕ

unfoldable pub to_arg : InternalPort → Bytes
unfolding show_u16 as_str
to_arg p = show_u16 p.port ++ b'/' ∷ as_str p.protocol

-- What of `IpAddr` the code uses.
pub record Ips (IpAddr : Type 0) : Type 0 where
  pub show_ip : IpAddr → Bytes
  pub parse_ip : Bytes → Option IpAddr
  pub unspecified : IpAddr

pub record PortMapping (IpAddr : Type 0) : Type 0 where
  pub internal_port : InternalPort
  pub interface : IpAddr
  pub external_port : Option ℕ

unfoldable pub external_arg : Option ℕ → Bytes
external_arg none = []
external_arg (some port) = show_u16 port

unfoldable pub as_arg : {IpAddr : Type 0} → Ips IpAddr → PortMapping IpAddr → Bytes
unfolding external_arg
as_arg ips m =
    ips.show_ip m.interface
    ++ b':' ∷ (external_arg m.external_port ++ b':' ∷ to_arg m.internal_port)

pub record Mount : Type 0 where
  pub destination : Bytes
  pub read_only : Bool
  pub source : Bytes

unfoldable pub as_mount : Mount → Bytes
as_mount m =
    codes "type=volume,destination="
    ++ (m.destination
        ++ (codes ",source=" ++ (m.source ++ (if m.read_only then codes ",readonly" else []))))

pub data Signal : Type 0 where
  kill term int quit hang_up : Signal

unfoldable pub as_signal_name : Signal → Bytes
as_signal_name kill = codes "SIGKILL"
as_signal_name term = codes "SIGTERM"
as_signal_name int = codes "SIGINT"
as_signal_name quit = codes "SIGQUIT"
as_signal_name hang_up = codes "SIGHUP"

-- `Stdio` without its functions.
pub data Stdio : Type 0 where
  drop_data : Stdio
  line_reader : Stdio
  line_waiter : List Bytes → Stdio

-- The ports, a `HashMap`, are in the order in which it gives them; the environment, a `BTreeMap`, in
-- the order of its keys.
pub record ProcessBuilder (IpAddr : Type 0) : Type 0 where
  pub image : Bytes
  pub ports : List (Bytes × PortMapping IpAddr)
  pub mounts : List Mount
  pub args : List Bytes
  pub vars : List (Bytes × Bytes)
  pub stdout : Stdio
  pub stderr : Stdio
  pub exit_signal : Signal

unfoldable pub new_builder : {IpAddr : Type 0} → Bytes → ProcessBuilder IpAddr
new_builder image = record {
  image = image;
  ports = [];
  mounts = [];
  args = [];
  vars = [];
  stdout = drop_data;
  stderr = drop_data;
  exit_signal = kill;
}

-- `HashMap::insert`.
unfoldable pub insert_port : {V : Type 0} → Bytes → V → List (Bytes × V) → List (Bytes × V)
insert_port name v [] = (name, v) ∷ []
insert_port name v ((k, w) ∷ rest) =
    let later = insert_port name v rest in if eq_bytes k name then (k, v) ∷ rest else (k, w) ∷ later

unfoldable pub lt_bytes : Bytes → Bytes → Bool
lt_bytes [] [] = false
lt_bytes [] (b ∷ bs) = true
lt_bytes (a ∷ as') [] = false
lt_bytes (a ∷ as') (b ∷ bs) = if a == b then lt_bytes as' bs else leb a b

-- `BTreeMap::insert`.
unfoldable pub insert_var : Bytes → Bytes → List (Bytes × Bytes) → List (Bytes × Bytes)
insert_var key v [] = (key, v) ∷ []
insert_var key v ((k, w) ∷ rest) =
    let later = insert_var key v rest in
    if eq_bytes k key
    then (k, v) ∷ rest
    else (if lt_bytes key k then (key, v) ∷ (k, w) ∷ rest else (k, w) ∷ later)

-- `c.is_ascii_alphanumeric() || c == '_'`.
unfoldable pub is_identifier_char : ℕ → Bool
is_identifier_char c =
    (leb b'0' c && leb c b'9')
    || ((leb b'a' c && leb c b'z') || ((leb b'A' c && leb c b'Z') || c == b'_'))

module _ {IpAddr : Type 0} where
  unfoldable pub port : Bytes → PortMapping IpAddr → ProcessBuilder IpAddr → ProcessBuilder IpAddr
  unfolding insert_port
  port name mapping b = record b { ports = insert_port name mapping b.ports }

  unfoldable pub volume : Mount → ProcessBuilder IpAddr → ProcessBuilder IpAddr
  volume m b = record b { mounts = b.mounts ++ m ∷ [] }

  unfoldable pub arg : Bytes → ProcessBuilder IpAddr → ProcessBuilder IpAddr
  arg a b = record b { args = b.args ++ a ∷ [] }

  -- `env`: the key must be an identifier. None is the panic of the assertion.
  unfoldable pub env : Bytes → Bytes → ProcessBuilder IpAddr → Option (ProcessBuilder IpAddr)
  unfolding all is_identifier_char insert_var
  env key value b =
      if all is_identifier_char key
      then some (record b { vars = insert_var key value b.vars })
      else none

-- The arguments that `start` and `exec` give for the variables.
abbrev pub env_arg : Bytes × Bytes → Bytes
env_arg (k, v) = k ++ b'=' ∷ v

unfoldable pub with_flag : {A : Type 0} → Bytes → (A → Bytes) → List A → List Bytes
with_flag flag f [] = []
with_flag flag f (a ∷ rest) = flag ∷ f a ∷ with_flag flag f rest

-- The command line of `start`.
unfoldable pub run_args :
    {IpAddr : Type 0} → Ips IpAddr → Bytes → ProcessBuilder IpAddr → List Bytes
unfolding with_flag
run_args ips cidfile b =
    codes "run"
    ∷ codes "-i"
    ∷ codes "--rm"
    ∷ codes "--init"
    ∷ codes "--sig-proxy=true"
    ∷ codes "--cidfile"
    ∷ cidfile
    ∷ (with_flag (codes "-p") (λ (p : Bytes × PortMapping _). as_arg ips p.1) b.ports
        ++ (with_flag (codes "--mount") as_mount b.mounts
            ++ (with_flag (codes "-e") env_arg b.vars ++ b.image ∷ b.args)))

pub record ExecBuilder : Type 0 where
  pub binary : Bytes
  pub workdir : Option Bytes
  pub args : List Bytes
  pub vars : List (Bytes × Bytes)

workdir_args : Option Bytes → List Bytes
workdir_args none = []
workdir_args (some dir) = codes "--workdir" ∷ dir ∷ []

-- The command line of `ExecBuilder::exec`.
unfoldable pub exec_args : Bytes → ExecBuilder → List Bytes
unfolding workdir_args with_flag
exec_args container_id e =
    codes "exec"
    ∷ codes "-i"
    ∷ (workdir_args e.workdir
        ++ (with_flag (codes "-e") env_arg e.vars ++ container_id ∷ e.binary ∷ e.args))
