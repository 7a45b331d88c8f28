-- ===== src/DockerProc/Args.antt =====
-- crates/docker-proc/src/lib.rs: how docker reads the arguments that the library writes.
use minibot_rust.Base.{
  ℕ, ◌+◌, ◌≡◌, ◌≢◌, refl, sym, ap, subst, map, ◌∙◌, true, false, List, [], ◌∷◌, Option, none, some,
  if◌then◌else◌, Bytes, all, eq_bytes, eq_bytes_iff, Lacks, All-imp, All-append, take, drop,
  take-append, drop-append, arith, Bool-cases, inl, inr, &&-eq_true,
}
use minibot_rust.IrcRaw.Slice.{position, position-append, split, split-append, split-Lacks}
use minibot_rust.DockerProc.Numbers.{show_u16, IsDigit, show_u16-IsDigit}
use minibot_rust.DockerProc.{
  PortProtocol, tcp, udp, as_str, InternalPort, to_arg, Ips, PortMapping, as_arg, ProcessBuilder,
  external_arg, insert_var, lt_bytes, is_identifier_char, env, env_arg,
}
use minibot_rust.DockerProc.Bindings.{lookup}

-- A setting is cut at its first `=`.
cut : Option ℕ → Bytes → Option (Bytes × Bytes)
cut none text = none
cut (some i) text = some (take i text, drop (i + 1) text)

pub read_setting : Bytes → Option (Bytes × Bytes)
unfolding cut
read_setting text = cut (position b'=' text) text

identifier_char : (c : ℕ) → is_identifier_char c ≡ true → c ≢ b'='
unfolding is_identifier_char
identifier_char c h = ground (arith, h)

identifier-Lacks : (key : Bytes) → all is_identifier_char key ≡ true → Lacks b'=' key
unfolding all
identifier-Lacks [] h = tt
identifier-Lacks (c ∷ key) h =
    let (first, rest) = &&-eq_true (is_identifier_char c) (all is_identifier_char key) h in
    (identifier_char c first, identifier-Lacks key rest)

read_setting-env_arg :
    (key value : Bytes)
    → all is_identifier_char key ≡ true
    → read_setting (env_arg (key, value)) ≡ some (key, value)
unfolding read_setting
read_setting-env_arg key value h =
    rw (position-append b'=' key value (identifier-Lacks key h), cut)
      (rw (take-append key (b'=' ∷ value), drop-append key b'=' value) refl)

lt_bytes_trans : (a b c : Bytes) → lt_bytes a b ≡ true → lt_bytes b c ≡ true → lt_bytes a c ≡ true
unfolding lt_bytes
lt_bytes_trans [] [] c h k = cc
lt_bytes_trans [] (y ∷ b) [] h k = cc
lt_bytes_trans [] (y ∷ b) (z ∷ c) h k = refl
lt_bytes_trans (x ∷ a) [] c h k = cc
lt_bytes_trans (x ∷ a) (y ∷ b) [] h k = cc
lt_bytes_trans (x ∷ a) (y ∷ b) (z ∷ c) h k = ground (arith, lt_bytes_trans a b c)

-- Of two different texts, one is before the other.
lt_bytes-total : (a b : Bytes) → eq_bytes a b ≡ false → lt_bytes b a ≡ false → lt_bytes a b ≡ true
unfolding lt_bytes eq_bytes
lt_bytes-total [] [] h k = cc
lt_bytes-total [] (y ∷ b) h k = refl
lt_bytes-total (x ∷ a) [] h k = cc
lt_bytes-total (x ∷ a) (y ∷ b) h k = ground (arith, lt_bytes-total a b)

abbrev pub Vars : Type 0
Vars = List (Bytes × Bytes)

-- All keys are behind the key.
abbrev pub Above : Bytes → Vars → Type 0
Above key [] = Unit
Above key ((k, v) ∷ vars) = (lt_bytes key k ≡ true) × Above key vars

-- Keys are identifiers, and in order with none twice.
abbrev pub IsEnv : Vars → Type 0
IsEnv [] = Unit
IsEnv ((k, v) ∷ vars) = (all is_identifier_char k ≡ true) × Above k vars × IsEnv vars

Above-trans : (a b : Bytes) (vars : Vars) → lt_bytes a b ≡ true → Above b vars → Above a vars
Above-trans a b [] h k = tt
Above-trans a b ((c, v) ∷ vars) h k = (lt_bytes_trans a b c h k.0, Above-trans a b vars h k.1)

insert_var-Above :
    (a key v : Bytes) (vars : Vars)
    → lt_bytes a key ≡ true
    → Above a vars
    → Above a (insert_var key v vars)
unfolding insert_var
insert_var-Above a key v [] h k = (h, tt)
insert_var-Above a key v ((c, w) ∷ vars) h k = ground (arith, insert_var-Above a key v vars h k.1)

insert_var-IsEnv :
    (key v : Bytes) (vars : Vars)
    → all is_identifier_char key ≡ true
    → IsEnv vars
    → IsEnv (insert_var key v vars)
unfolding insert_var
insert_var-IsEnv key v [] i h = (i, tt, tt)
insert_var-IsEnv key v ((k, w) ∷ vars) i h = elim (Bool-cases (eq_bytes k key)) [
  | inl same ↦ rw (same, insert_var) h
  | inr different ↦ elim (Bool-cases (lt_bytes key k)) [
    | inl before ↦
        rw (different, insert_var) (rw (before) (i, (before, Above-trans key k vars before h.1), h))
    | inr behind ↦
        rw (different, insert_var)
          (rw (behind) (
            h.0,
            insert_var-Above k key v vars (lt_bytes-total k key different behind) h.1,
            insert_var-IsEnv key v vars i h.2,
          ))
  ]
]

replaced :
    (key v other k w : Bytes) (vars : Vars)
    → k ≡ key
    → lookup other ((k, v) ∷ vars)
      ≡ (if eq_bytes key other then some v else lookup other ((k, w) ∷ vars))
unfolding lookup
replaced key v other k w vars e = rw e (elim (Bool-cases (eq_bytes key other)) [
  | inl mine ↦ rw mine refl
  | inr another ↦ rw another refl
])

passed :
    (key v other k w : Bytes) (vars : Vars)
    → eq_bytes k key ≡ false
    → lookup other (insert_var key v vars)
      ≡ (if eq_bytes key other then some v else lookup other vars)
    → lookup other ((k, w) ∷ insert_var key v vars)
      ≡ (if eq_bytes key other then some v else lookup other ((k, w) ∷ vars))
unfolding lookup
passed key v other k w vars apart later = elim (Bool-cases (eq_bytes k other)) [
  | inr another ↦ rw (another, lookup) later
  | inl mine ↦ elim (Bool-cases (eq_bytes key other)) [
    | inl both ↦
        let e : k ≡ key = (eq_bytes_iff k other).0 mine ∙ sym ((eq_bytes_iff key other).0 both) in
        absurd (let t = (eq_bytes_iff k key).1 e in cc)
    | inr only ↦ rw (mine, only, lookup) refl
  ]
]

vars_of : {IpAddr : Type 0} → Option (ProcessBuilder IpAddr) → Vars
vars_of none = []
vars_of (some b) = b.vars

lookup-insert_var :
    (key v other : Bytes) (vars : Vars)
    → lookup other (insert_var key v vars)
      ≡ (if eq_bytes key other then some v else lookup other vars)
unfolding lookup insert_var
lookup-insert_var key v other [] = refl
lookup-insert_var key v other ((k, w) ∷ vars) = elim (Bool-cases (eq_bytes k key)) [
  | inl same ↦
      let e : k ≡ key = (eq_bytes_iff k key).0 same in
      rw (same, insert_var) (replaced key v other k w vars e)
  | inr different ↦ elim (Bool-cases (lt_bytes key k)) [
    | inl before ↦ rw (different, insert_var) (rw before refl)
    | inr behind ↦
        rw (different, insert_var)
          (rw (behind) (passed key v other k w vars different (lookup-insert_var key v other vars)))
  ]
]

-- The settings that docker reads from the arguments.
abbrev pub settings : Vars → List (Option (Bytes × Bytes))
settings [] = []
settings (kv ∷ vars) = read_setting (env_arg kv) ∷ settings vars

settings-IsEnv : (vars : Vars) → IsEnv vars → settings vars ≡ map some vars
settings-IsEnv [] h = refl
settings-IsEnv ((k, v) ∷ vars) h = rw (read_setting-env_arg k v h.0, settings-IsEnv vars h.2) refl

-- A call of `env` that does not panic keeps the variables in the order of their keys, none twice and
-- all identifiers; the variable has its new value and every other one the value it had; and docker,
-- which cuts each argument at its first `=`, reads exactly those variables, whatever bytes their
-- values have.
pub env-IsEnv :
    {IpAddr : Type 0} (key value other : Bytes) (b b' : ProcessBuilder IpAddr)
    → IsEnv b.vars
    → env key value b ≡ some b'
    → IsEnv b'.vars
      × (lookup other b'.vars ≡ (if eq_bytes key other then some value else lookup other b.vars))
      × (settings b'.vars ≡ map some b'.vars)
unfolding env vars_of
env-IsEnv key value other b b' h e = elim (Bool-cases (all is_identifier_char key)) [
  | inr bad ↦ absurd (let e' = rw bad at e in cc)
  | inl good ↦
      let e' = rw good at e in
      let same : insert_var key value b.vars ≡ b'.vars = ap vars_of e' in
      subst
        (λ vs.
          IsEnv vs
          × (lookup other vs ≡ (if eq_bytes key other then some value else lookup other b.vars))
          × (settings vs ≡ map some vs))
        same
        (
          insert_var-IsEnv key value b.vars good h,
          lookup-insert_var key value other b.vars,
          settings-IsEnv (insert_var key value b.vars) (insert_var-IsEnv key value b.vars good h),
        )
]

not_colon : (n : ℕ) → Lacks b':' (show_u16 n)
not_colon n =
    All-imp IsDigit (λ c. c ≢ b':') (λ c h. ground (arith, h)) (show_u16 n) (show_u16-IsDigit n)

external_arg-Lacks : (o : Option ℕ) → Lacks b':' (external_arg o)
unfolding external_arg
external_arg-Lacks none = tt
external_arg-Lacks (some n) = not_colon n

as_str-Lacks : (p : PortProtocol) → Lacks b':' (b'/' ∷ as_str p)
unfolding as_str
as_str-Lacks tcp = omega arith
as_str-Lacks udp = omega arith

to_arg-Lacks : (p : InternalPort) → Lacks b':' (to_arg p)
unfolding to_arg
to_arg-Lacks p =
    All-append (λ c. c ≢ b':') (show_u16 p.port) (b'/' ∷ as_str p.protocol) (not_colon p.port)
      (as_str-Lacks p.protocol)

-- The argument of a port on an address whose text has no colon, as an IPv4 address, is cut at its
-- colons into the address, the port outside, if one is given, and the port inside.
pub as_arg-split :
    {IpAddr : Type 0} (ips : Ips IpAddr) (m : PortMapping IpAddr)
    → Lacks b':' (ips.show_ip m.interface)
    → split b':' (as_arg ips m)
      ≡ ips.show_ip m.interface ∷ external_arg m.external_port ∷ to_arg m.internal_port ∷ []
unfolding as_arg
as_arg-split ips m h =
    split-append b':' (ips.show_ip m.interface) _ h
    ∙ ap (◌∷◌ (ips.show_ip m.interface)) (
        split-append b':' (external_arg m.external_port) (to_arg m.internal_port)
          (external_arg-Lacks m.external_port)
        ∙ ap (◌∷◌ (external_arg m.external_port))
            (split-Lacks b':' (to_arg m.internal_port) (to_arg-Lacks m.internal_port)))
