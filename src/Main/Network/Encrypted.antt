-- ===== src/Main/Network/Encrypted.antt =====
-- src/main.cpp: which calls of the modes `send` and `recv` are told to encrypt.
use uring_sync.Base.{
  ap, ◌∙◌, subst, if◌then◌else◌, ◌⊎◌, ℕ, ◌≡◌, refl, sym, List, [], ◌∷◌, Bool, true, false, ◌&&◌,
  ◌||◌, not, Option, none, some, ◌==◌, ltb, Bool-cases, Option-cases, inl, inr, length, get_or,
}
use uring_sync.Base.Text.{codes}
use uring_sync.Net.Handshake.{is_empty, same_text}
use uring_sync.Net.Handshake.Secrets.{same_text_sound}
use uring_sync.Main.Numbers.{atoi}
use uring_sync.Main.Network.{
  send_flag, to_port, parse_host_port, Action, exits, run_sender, run_sender_uring, run_receiver,
  run_receiver_uring, SendFlags, send_flags, no_send_flags, connects, sends, send_mode, RecvFlags,
  recv_flags, no_recv_flags, listens, recv_mode, recv_flag, recv_value, is_dashed,
}

-- `--tls` is among the options, and is not the value of one: `values` says which options take one.
abbrev pub asks_tls : (List ℕ → Bool) → List (List ℕ) → Bool
asks_tls values [] = false
asks_tls values (arg ∷ []) = same_text arg (codes "--tls")
asks_tls values (arg ∷ value ∷ rest) =
    let from_value = asks_tls values (value ∷ rest) in
    let behind_value = asks_tls values rest in
    if values arg then behind_value else same_text arg (codes "--tls") || from_value

abbrev pub send_values : List ℕ → Bool
send_values arg = same_text arg (codes "--secret")

abbrev pub recv_values : List ℕ → Bool
recv_values arg =
    (same_text arg (codes "--listen") || same_text arg (codes "-l"))
    || same_text arg (codes "--secret")

-- A call that is told to encrypt exactly if `asked`, or an exit. What has no such argument does not.
abbrev pub Encrypts : Bool → Action → Type 0
Encrypts asked (exits code) = Unit
Encrypts asked (run_sender src host port secret use_splice use_tls) = use_tls ≡ asked
Encrypts asked (run_sender_uring src host port secret) = asked ≡ false
Encrypts asked (run_receiver dst port secret use_tls) = use_tls ≡ asked
Encrypts asked (run_receiver_uring dst port secret) = asked ≡ false

abbrev SendTls : Bool → Option SendFlags → Type 0
SendTls asked none = Unit
SendTls asked (some f) = f.use_tls ≡ asked

abbrev RecvTls : Bool → Option RecvFlags → Type 0
RecvTls asked none = Unit
RecvTls asked (some f) = f.use_tls ≡ asked

-- An option that has another name is not `--tls`.
not_tls :
    (arg text : List ℕ)
    → same_text arg text ≡ true
    → same_text text (codes "--tls") ≡ false
    → same_text arg (codes "--tls") ≡ false
not_tls arg text h other =
    ap (λ a. same_text a (codes "--tls")) (same_text_sound arg text h) ∙ other

send_flag-Tls :
    (arg : List ℕ) (f : SendFlags)
    → SendTls (same_text arg (codes "--tls") || f.use_tls) (send_flag arg f)
send_flag-Tls arg f = elim (Bool-cases (same_text arg (codes "--splice"))) [
  | inl a ↦ rw (a, not_tls arg (codes "--splice") a refl) refl
  | inr a ↦ elim (Bool-cases (same_text arg (codes "--uring"))) [
    | inl b ↦ rw (a, b, not_tls arg (codes "--uring") b refl) refl
    | inr b ↦ elim (Bool-cases (same_text arg (codes "--tls"))) [
      | inl c ↦ rw (a, b, c) refl
      | inr c ↦ elim (Bool-cases (same_text arg (codes "--help") || same_text arg (codes "-h"))) [
        | inl d ↦ rw (a, b, c, d) tt
        | inr d ↦ rw (a, b, c, d) refl
      ]
    ]
  ]
]

or_swap : (a b c : Bool) → (b || (a || c)) ≡ ((a || b) || c)
or_swap true true c = refl
or_swap true false c = refl
or_swap false true c = refl
or_swap false false c = refl

send_flags-Tls :
    (args : List (List ℕ)) (f : SendFlags)
    → SendTls (asks_tls send_values args || f.use_tls) (send_flags args f)
unfolding send_flags
send_flags-Tls [] f = refl
send_flags-Tls (arg ∷ []) f = send_flag-Tls arg f
send_flags-Tls (arg ∷ value ∷ rest) f =
    let tls = same_text arg (codes "--tls") in
    let one = send_flag-Tls arg f in
    elim (Bool-cases (same_text arg (codes "--secret"))) [
      | inl e ↦ rw (e, send_flags) (send_flags-Tls rest (record f { secret = value }))
      | inr e ↦ elim (Option-cases (send_flag arg f)) [
        | inl d ↦ rw (e, send_flags) (rw (d, send_flags) tt)
        | inr (g, d) ↦
            let later = asks_tls send_values (value ∷ rest) in
            let set : (later || g.use_tls) ≡ ((tls || later) || f.use_tls) =
              ap (λ b. later || b) (rw d at one) ∙ or_swap tls later f.use_tls in
            rw (e, send_flags)
              (rw (d, send_flags)
                (subst (λ b. SendTls b (send_flags (value ∷ rest) g)) set
                  (send_flags-Tls (value ∷ rest) g)))
      ]
    ]

-- A value changes no flag.
recv_value-Tls :
    (arg value : List ℕ) (f : RecvFlags)
    → ((g : RecvFlags) × (recv_values arg ≡ true)
        × (recv_value arg value f ≡ some g)
        × (g.use_tls ≡ f.use_tls))
      ⊎ ((recv_values arg ≡ false) × (recv_value arg value f ≡ none))
recv_value-Tls arg value f =
    elim (Bool-cases (same_text arg (codes "--listen") || same_text arg (codes "-l"))) [
      | inl a ↦ inl (record f { port = to_port (atoi value) }, rw a refl, rw a refl, refl)
      | inr a ↦ elim (Bool-cases (same_text arg (codes "--secret"))) [
        | inl b ↦ inl (record f { secret = value }, rw (a, b) refl, rw (a, b) refl, refl)
        | inr b ↦ inr (rw (a, b) refl, rw (a, b) refl)
      ]
    ]

recv_flag-Tls :
    (arg : List ℕ) (f : RecvFlags)
    → RecvTls (same_text arg (codes "--tls") || f.use_tls) (recv_flag arg f)
recv_flag-Tls arg f = elim (Bool-cases (same_text arg (codes "--uring"))) [
  | inl a ↦ rw (a, not_tls arg (codes "--uring") a refl) refl
  | inr a ↦ elim (Bool-cases (same_text arg (codes "--tls"))) [
    | inl b ↦ rw (a, b) refl
    | inr b ↦ elim (Bool-cases (same_text arg (codes "--help") || same_text arg (codes "-h"))) [
      | inl c ↦ rw (a, b, c) tt
      | inr c ↦ elim (Bool-cases (not (is_dashed arg) && is_empty f.dest)) [
        | inl d ↦ rw (a, b, c, d) refl
        | inr d ↦ rw (a, b, c, d) refl
      ]
    ]
  ]
]

recv_flags-Tls :
    (args : List (List ℕ)) (f : RecvFlags)
    → RecvTls (asks_tls recv_values args || f.use_tls) (recv_flags args f)
unfolding recv_flags
recv_flags-Tls [] f = refl
recv_flags-Tls (arg ∷ []) f = recv_flag-Tls arg f
recv_flags-Tls (arg ∷ value ∷ rest) f =
    let tls = same_text arg (codes "--tls") in
    let one = recv_flag-Tls arg f in
    elim (recv_value-Tls arg value f) [
      | inl (g, takes, e, same) ↦
          rw (takes, e, recv_flags)
            (subst (λ b. RecvTls (asks_tls recv_values rest || b) (recv_flags rest g)) same
              (recv_flags-Tls rest g))
      | inr (takes, e) ↦ elim (Option-cases (recv_flag arg f)) [
        | inl d ↦ rw (takes, e, recv_flags) (rw (d, recv_flags) tt)
        | inr (g, d) ↦
            let later = asks_tls recv_values (value ∷ rest) in
            let set : (later || g.use_tls) ≡ ((tls || later) || f.use_tls) =
              ap (λ b. later || b) (rw d at one) ∙ or_swap tls later f.use_tls in
            rw (takes, e, recv_flags)
              (rw (d, recv_flags)
                (subst (λ b. RecvTls b (recv_flags (value ∷ rest) g)) set
                  (recv_flags-Tls (value ∷ rest) g)))
      ]
    ]

connects-Encrypts :
    (src : List ℕ) (f : SendFlags) (o : Option (List ℕ × ℕ)) → Encrypts f.use_tls (connects src f o)
connects-Encrypts src f none = tt
connects-Encrypts src f (some (host, port)) = elim (Bool-cases f.use_uring) [
  | inl e ↦ elim (Bool-cases f.use_tls) [ inl t ↦ rw (e, t) tt | inr t ↦ rw (e, t) refl ]
  | inr e ↦ rw e refl
]

sends-Encrypts :
    (args : List (List ℕ)) (asked : Bool) (o : Option SendFlags)
    → SendTls asked o
    → Encrypts asked (sends args o)
sends-Encrypts args asked none h = tt
sends-Encrypts args asked (some f) h = elim (Bool-cases (ltb (length args) 2)) [
  | inl e ↦ rw e tt
  | inr e ↦ elim (Bool-cases (f.use_tls && is_empty f.secret)) [
    | inl s ↦ rw (e, s) tt
    | inr s ↦
        let o = parse_host_port (get_or args 1 []) in
        rw (e, s)
          (subst (λ b. Encrypts b (connects (get_or args 0 []) f o)) h
            (connects-Encrypts (get_or args 0 []) f o))
  ]
]

listens-Encrypts :
    (asked : Bool) (o : Option RecvFlags) → RecvTls asked o → Encrypts asked (listens o)
listens-Encrypts asked none h = tt
listens-Encrypts asked (some f) h = elim (Bool-cases (is_empty f.dest || f.port == 0)) [
  | inl e ↦ rw e tt
  | inr e ↦ elim (Bool-cases (f.use_tls && is_empty f.secret)) [
    | inl s ↦ rw (e, s) tt
    | inr s ↦ elim (Bool-cases f.use_uring) [
      | inr u ↦ rw (e, s, u) h
      | inl u ↦ elim (Bool-cases f.use_tls) [
        | inl t ↦ rw (e, s, u, t) tt
        | inr t ↦ rw (e, s, u, t) (sym h ∙ t)
      ]
    ]
  ]
]

-- Whatever the arguments of `send` and of `recv` are: `main` ends with an exit code of its own, or
-- calls the transfer with `use_tls` exactly if `--tls` is among the arguments, not counting those that
-- are the values of options; a transfer with io_uring, which has no encryption, it calls only if
-- `--tls` is not among them.
pub modes-Encrypts :
    (args : List (List ℕ))
    → Encrypts (asks_tls send_values args) (send_mode args)
      × Encrypts (asks_tls recv_values args) (recv_mode args)
unfolding send_mode recv_mode
modes-Encrypts args =
    let send = asks_tls send_values args in
    let recv = asks_tls recv_values args in
    (
      sends-Encrypts args send (send_flags args no_send_flags) (
          subst (λ b. SendTls b (send_flags args no_send_flags)) (or-false send)
            (send_flags-Tls args no_send_flags)),
      listens-Encrypts recv (recv_flags args no_recv_flags) (
          subst (λ b. RecvTls b (recv_flags args no_recv_flags)) (or-false recv)
            (recv_flags-Tls args no_recv_flags)),
    )
  where
    or-false : (b : Bool) → (b || false) ≡ b
    or-false true = refl
    or-false false = refl
