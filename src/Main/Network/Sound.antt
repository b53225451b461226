-- ===== src/Main/Network/Sound.antt =====
-- src/main.cpp: the ports, the secrets and the destination that `send` and `recv` go on with.
use uring_sync.Base.{
  ℕ, ◌^◌, ◌<◌, ◌≡◌, ◌≢◌, sym, List, [], ◌∷◌, Bool, true, false, ◌&&◌, ◌||◌, not, Option, none, some,
  ◌==◌, ltb, arith, Bool-cases, Option-cases, inl, inr, length, get_or, false≢true, both_false,
  ltb→lt,
}
use mathlib.Core.List.{cons≢nil}
use uring_sync.Base.Int.{ℤ, pos, negsuc}
use uring_sync.Base.Text.{codes}
use uring_sync.Net.Handshake.{is_empty, same_text}
use uring_sync.Main.Numbers.{atoi}
use uring_sync.Main.Network.{
  split_last, to_port, with_port, after_colon, parse_host_port, Action, exits, run_sender,
  run_sender_uring, run_receiver, run_receiver_uring, SendFlags, send_flags, no_send_flags,
  connects, sends, send_mode, RecvFlags, recv_flags, no_recv_flags, listens, recv_mode, recv_flag,
  recv_value, is_dashed,
}

-- A call that the command line leads to: no encryption without a secret, and a port that is not zero.
abbrev pub IsSound : Action → Type 0
IsSound (exits code) = Unit
IsSound (run_sender src host port secret use_splice use_tls) =
    (use_tls ≡ true → secret ≢ []) × (0 < port) × (port < 2 ^ 16)
IsSound (run_sender_uring src host port secret) = (0 < port) × (port < 2 ^ 16)
IsSound (run_receiver dst port secret use_tls) =
    (use_tls ≡ true → secret ≢ []) × (dst ≢ []) × (0 < port) × (port < 2 ^ 16)
IsSound (run_receiver_uring dst port secret) = (dst ≢ []) × (0 < port) × (port < 2 ^ 16)

not_empty : (text : List ℕ) → is_empty text ≡ false → text ≢ []
not_empty [] h e = absurd (false≢true (sym h))
not_empty (c ∷ text) h e = absurd (cons≢nil e)

-- `true && b`, tested before.
secret_given :
    (tls : Bool) (text : List ℕ) → (tls && is_empty text) ≡ false → tls ≡ true → text ≢ []
secret_given true text h e = not_empty text h
secret_given false text h e = absurd (false≢true e)

to_port-small : (z : ℤ) → to_port z < 2 ^ 16
to_port-small (pos n) = omega arith
to_port-small (negsuc n) = omega arith

abbrev IsPort : Option (List ℕ × ℕ) → Type 0
IsPort none = Unit
IsPort (some (host, port)) = (0 < port) × (port < 2 ^ 16)

with_port-IsPort : (host : List ℕ) (z : ℤ) → IsPort (with_port host (to_port z))
with_port-IsPort host z = elim (Bool-cases (ltb 0 (to_port z))) [
  | inl e ↦ rw e (ltb→lt 0 (to_port z) e, to_port-small z)
  | inr e ↦ rw e tt
]

parse_host_port-IsPort : (text : List ℕ) → IsPort (parse_host_port text)
unfolding parse_host_port
parse_host_port-IsPort text = after_colon-IsPort (split_last b':' text)
  where
    after_colon-IsPort : (o : Option (List ℕ × List ℕ)) → IsPort (after_colon o)
    after_colon-IsPort none = tt
    after_colon-IsPort (some (host, rest)) = with_port-IsPort host (atoi rest)

connects-IsSound :
    (src : List ℕ) (f : SendFlags) (o : Option (List ℕ × ℕ))
    → (f.use_tls && is_empty f.secret) ≡ false
    → IsPort o
    → IsSound (connects src f o)
connects-IsSound src f none h p = tt
connects-IsSound src f (some (host, port)) h p = elim (Bool-cases f.use_uring) [
  | inr e ↦ rw e (secret_given f.use_tls f.secret h, p.0, p.1)
  | inl e ↦ elim (Bool-cases f.use_tls) [ inl t ↦ rw (e, t) tt | inr t ↦ rw (e, t) p ]
]

sends-IsSound : (args : List (List ℕ)) (o : Option SendFlags) → IsSound (sends args o)
sends-IsSound args none = tt
sends-IsSound args (some f) = elim (Bool-cases (ltb (length args) 2)) [
  | inl e ↦ rw e tt
  | inr e ↦ elim (Bool-cases (f.use_tls && is_empty f.secret)) [
    | inl h ↦ rw (e, h) tt
    | inr h ↦
        rw (e, h)
          (connects-IsSound (get_or args 0 []) f (parse_host_port (get_or args 1 [])) h
            (parse_host_port-IsPort (get_or args 1 [])))
  ]
]

abbrev SmallPort : Option RecvFlags → Type 0
SmallPort none = Unit
SmallPort (some f) = f.port < 2 ^ 16

-- The port that the flags of `recv` hold has 16 bits.
recv_value-small :
    (arg value : List ℕ) (f : RecvFlags) → f.port < 2 ^ 16 → SmallPort (recv_value arg value f)
recv_value-small arg value f h =
    elim (Bool-cases (same_text arg (codes "--listen") || same_text arg (codes "-l"))) [
      | inl e ↦ rw e (to_port-small (atoi value))
      | inr e ↦ elim (Bool-cases (same_text arg (codes "--secret"))) [
        | inl g ↦ rw (e, g) h
        | inr g ↦ rw (e, g) tt
      ]
    ]

recv_flag-small : (arg : List ℕ) (f : RecvFlags) → f.port < 2 ^ 16 → SmallPort (recv_flag arg f)
recv_flag-small arg f h = elim (Bool-cases (same_text arg (codes "--uring"))) [
  | inl a ↦ rw a h
  | inr a ↦ elim (Bool-cases (same_text arg (codes "--tls"))) [
    | inl b ↦ rw (a, b) h
    | inr b ↦ elim (Bool-cases (same_text arg (codes "--help") || same_text arg (codes "-h"))) [
      | inl c ↦ rw (a, b, c) tt
      | inr c ↦ elim (Bool-cases (not (is_dashed arg) && is_empty f.dest)) [
        | inl d ↦ rw (a, b, c, d) h
        | inr d ↦ rw (a, b, c, d) h
      ]
    ]
  ]
]

recv_flags-small :
    (args : List (List ℕ)) (f : RecvFlags) → f.port < 2 ^ 16 → SmallPort (recv_flags args f)
unfolding recv_flags
recv_flags-small [] f h = h
recv_flags-small (arg ∷ []) f h = recv_flag-small arg f h
recv_flags-small (arg ∷ value ∷ rest) f h =
    let taken = recv_value-small arg value f h in
    let alone = recv_flag-small arg f h in
    elim (Option-cases (recv_value arg value f)) [
      | inr (g, e) ↦ rw (e, recv_flags) (recv_flags-small rest g (rw e at taken))
      | inl e ↦ elim (Option-cases (recv_flag arg f)) [
        | inl d ↦ rw (e, recv_flags) (rw (d, recv_flags) tt)
        | inr (g, d) ↦
            rw (e, recv_flags)
              (rw (d, recv_flags) (recv_flags-small (value ∷ rest) g (rw d at alone)))
      ]
    ]

listens-IsSound : (o : Option RecvFlags) → SmallPort o → IsSound (listens o)
listens-IsSound none h = tt
listens-IsSound (some f) h = elim (Bool-cases (is_empty f.dest || f.port == 0)) [
  | inl e ↦ rw e tt
  | inr e ↦
      let (named, ported) = both_false (is_empty f.dest) (f.port == 0) e in
      let positive : 0 < f.port = ground arith in
      elim (Bool-cases (f.use_tls && is_empty f.secret)) [
        | inl s ↦ rw (e, s) tt
        | inr s ↦ elim (Bool-cases f.use_uring) [
          | inr u ↦
              rw (e, s, u) (secret_given f.use_tls f.secret s, not_empty f.dest named, positive, h)
          | inl u ↦ elim (Bool-cases f.use_tls) [
            | inl t ↦ rw (e, s, u, t) tt
            | inr t ↦ rw (e, s, u, t) (not_empty f.dest named, positive, h)
          ]
        ]
      ]
]

-- Whatever the arguments are, what the modes `send` and `recv` call has a port from 1 to 2 ^ 16 - 1,
-- a secret that is not empty if it is to encrypt, and in `recv` a destination that is not empty.
pub modes-IsSound : (args : List (List ℕ)) → IsSound (send_mode args) × IsSound (recv_mode args)
unfolding send_mode recv_mode
modes-IsSound args = (
  sends-IsSound args (send_flags args no_send_flags),
  listens-IsSound (recv_flags args no_recv_flags)
      (recv_flags-small args no_recv_flags (omega arith)),
)
