-- ===== src/Main/Network.antt =====
-- src/main.cpp: the modes `send` and `recv` of the command line, and `parse_host_port`.
pub mod Ports
pub mod Sound
pub mod Encrypted
use uring_sync.Base.{
  ℕ, zero, suc, ◌+◌, ◌-◌, ◌%◌, ◌^◌, List, [], ◌∷◌, Bool, true, false, ◌&&◌, ◌||◌, not, Option, none,
  some, ◌==◌, ltb, if◌then◌else◌, length, get_or,
}
use uring_sync.Base.Int.{ℤ, pos, negsuc}
use uring_sync.Base.Text.{codes}
use uring_sync.Net.Handshake.{is_empty, same_text}
use uring_sync.Main.Numbers.{atoi}

-- `s.substr(0, colon)` and `s.substr(colon + 1)` for `colon = s.rfind(c)`.
unfoldable pub split_last : ℕ → List ℕ → Option (List ℕ × List ℕ)
split_last c [] = none
split_last c (x ∷ text) = elim (split_last c text) [
  | some (before, after) ↦ some (x ∷ before, after)
  | none ↦ if x == c then some ([], text) else none
]

-- An `int` as a `uint16_t`.
abbrev pub to_port : ℤ → ℕ
to_port (pos n) = n % 2 ^ 16
to_port (negsuc n) = 2 ^ 16 - 1 - n % 2 ^ 16

abbrev pub with_port : List ℕ → ℕ → Option (List ℕ × ℕ)
with_port host port = if ltb 0 port then some (host, port) else none

abbrev pub after_colon : Option (List ℕ × List ℕ) → Option (List ℕ × ℕ)
after_colon none = none
after_colon (some (host, rest)) = with_port host (to_port (atoi rest))

-- `none` is the result false.
unfoldable pub parse_host_port : List ℕ → Option (List ℕ × ℕ)
parse_host_port s = after_colon (split_last b':' s)

-- What `main` goes on to: an exit code after a message, or a call with its arguments.
pub data Action : Type 0 where
  exits : ℕ → Action
  run_sender : List ℕ → List ℕ → ℕ → List ℕ → Bool → Bool → Action
  run_sender_uring : List ℕ → List ℕ → ℕ → List ℕ → Action
  run_receiver : List ℕ → ℕ → List ℕ → Bool → Action
  run_receiver_uring : List ℕ → ℕ → List ℕ → Action

pub record SendFlags : Type 0 where
  pub secret : List ℕ
  pub use_splice : Bool
  pub use_uring : Bool
  pub use_tls : Bool

-- An argument that takes no value. `none` is `--help`.
abbrev pub send_flag : List ℕ → SendFlags → Option SendFlags
send_flag arg f =
    if same_text arg (codes "--splice")
    then some (record f { use_splice = true })
    else if same_text arg (codes "--uring")
    then some (record f { use_uring = true })
    else if same_text arg (codes "--tls")
    then some (record f { use_tls = true })
    else if same_text arg (codes "--help") || same_text arg (codes "-h")
    then none
    else some f

-- `for (int i = 2; i < argc; i++)`, over the arguments from `argv[2]` on.
unfoldable pub send_flags : List (List ℕ) → SendFlags → Option SendFlags
send_flags [] f = some f
send_flags (arg ∷ []) f = send_flag arg f
send_flags (arg ∷ value ∷ rest) f = elim (same_text arg (codes "--secret")) [
  | true ↦ send_flags rest (record f { secret = value })
  | false ↦ elim (send_flag arg f) [ none ↦ none | some g ↦ send_flags (value ∷ rest) g ]
]

abbrev pub no_send_flags : SendFlags
no_send_flags = record { secret = []; use_splice = false; use_uring = false; use_tls = false }

abbrev pub connects : List ℕ → SendFlags → Option (List ℕ × ℕ) → Action
connects src f none = exits 1
connects src f (some (host, port)) =
    if f.use_uring
    then if f.use_tls then exits 1 else run_sender_uring src host port f.secret
    else run_sender src host port f.secret f.use_splice f.use_tls

abbrev pub sends : List (List ℕ) → Option SendFlags → Action
sends args none = exits 0
sends args (some f) =
    if ltb (length args) 2
    then exits 1
    else if f.use_tls && is_empty f.secret
    then exits 1
    else connects (get_or args 0 []) f (parse_host_port (get_or args 1 []))

-- `main` with the mode `send`, and the arguments from `argv[2]` on.
unfoldable pub send_mode : List (List ℕ) → Action
unfolding send_flags parse_host_port
send_mode args = sends args (send_flags args no_send_flags)

pub record RecvFlags : Type 0 where
  pub dest : List ℕ
  pub port : ℕ
  pub secret : List ℕ
  pub use_uring : Bool
  pub use_tls : Bool

-- `argv[i][0] != '-'`
abbrev pub is_dashed : List ℕ → Bool
is_dashed [] = false
is_dashed (c ∷ text) = c == b'-'

abbrev pub recv_flag : List ℕ → RecvFlags → Option RecvFlags
recv_flag arg f =
    if same_text arg (codes "--uring")
    then some (record f { use_uring = true })
    else if same_text arg (codes "--tls")
    then some (record f { use_tls = true })
    else if same_text arg (codes "--help") || same_text arg (codes "-h")
    then none
    else if not (is_dashed arg) && is_empty f.dest
    then some (record f { dest = arg })
    else some f

-- An argument with a value behind it: `none` where it takes none.
abbrev pub recv_value : List ℕ → List ℕ → RecvFlags → Option RecvFlags
recv_value arg value f =
    if same_text arg (codes "--listen") || same_text arg (codes "-l")
    then some (record f { port = to_port (atoi value) })
    else if same_text arg (codes "--secret")
    then some (record f { secret = value })
    else none

unfoldable pub recv_flags : List (List ℕ) → RecvFlags → Option RecvFlags
recv_flags [] f = some f
recv_flags (arg ∷ []) f = recv_flag arg f
recv_flags (arg ∷ value ∷ rest) f = elim (recv_value arg value f) [
  | some g ↦ recv_flags rest g
  | none ↦ elim (recv_flag arg f) [ none ↦ none | some g ↦ recv_flags (value ∷ rest) g ]
]

abbrev pub no_recv_flags : RecvFlags
no_recv_flags = record { dest = []; port = 0; secret = []; use_uring = false; use_tls = false }

abbrev pub listens : Option RecvFlags → Action
listens none = exits 0
listens (some f) =
    if is_empty f.dest || f.port == 0
    then exits 1
    else if f.use_tls && is_empty f.secret
    then exits 1
    else if f.use_uring
    then if f.use_tls then exits 1 else run_receiver_uring f.dest f.port f.secret
    else run_receiver f.dest f.port f.secret f.use_tls

-- `main` with the mode `recv`.
unfoldable pub recv_mode : List (List ℕ) → Action
unfolding recv_flags
recv_mode args = listens (recv_flags args no_recv_flags)
