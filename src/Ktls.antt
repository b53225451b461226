-- ===== src/Ktls.antt =====
-- include/ktls.hpp: the keys of both directions, and which side installs which.
pub mod Crossing
mod Tests
use uring_sync.Base.{ℕ, ◌+◌, List, [], ◌∷◌, ◌++◌, Bool, true, false, Option, none, some, take, drop}
use uring_sync.Base.Int.{ℤ, pos, negsuc}

abbrev pub key_size : ℕ
key_size = 16

abbrev pub iv_size : ℕ
iv_size = 4

abbrev pub rec_seq_size : ℕ
rec_seq_size = 8

-- What the program fills in of `tls12_crypto_info_aes_gcm_128`; the version and the cipher are fixed,
-- and the salt is left zero.
pub record CryptoInfo : Type 0 where
  pub key : List ℕ
  pub iv : List ℕ
  pub rec_seq : List ℕ

pub record KtlsKeys : Type 0 where
  pub tx : CryptoInfo
  pub rx : CryptoInfo

-- OpenSSL is not part of the program: `hkdf secret salt info len` is what HKDF with SHA-256 gives, or
-- `none` where one of its calls fails. The sequence of calls sets these four arguments.
abbrev pub Hkdf : Type 0
Hkdf = List ℕ → List ℕ → List ℕ → ℕ → Option (List ℕ)

-- "uring-sync-ktls-v1"
abbrev pub info : List ℕ
info =
    b'u' ∷ b'r' ∷ b'i' ∷ b'n' ∷ b'g' ∷ b'-' ∷ b's' ∷ b'y' ∷ b'n' ∷ b'c' ∷ b'-' ∷ b'k' ∷ b't' ∷ b'l'
    ∷ b's' ∷ b'-' ∷ b'v' ∷ b'1' ∷ []

abbrev pub cut : List ℕ → KtlsKeys
cut key_material = record {
  tx = record {
    key = take key_size key_material;
    iv = take iv_size (drop key_size key_material);
    rec_seq = take rec_seq_size (drop (key_size + iv_size) key_material);
  };
  rx = record {
    key = take key_size (drop 28 key_material);
    iv = take iv_size (drop (28 + key_size) key_material);
    rec_seq = take rec_seq_size (drop (28 + key_size + iv_size) key_material);
  };
}

abbrev derived : Option (List ℕ) → Option KtlsKeys
derived none = none
derived (some key_material) = some (cut key_material)

unfoldable pub derive_keys : Hkdf → List ℕ → List ℕ → List ℕ → Option KtlsKeys
derive_keys hkdf secret nonce_sender nonce_receiver =
    derived (hkdf secret (nonce_sender ++ nonce_receiver) info 56)

-- The calls of `setsockopt`, and what they installed.
pub data SockOpt : Type 0 where
  tcp_ulp : SockOpt
  tls_tx tls_rx : CryptoInfo → SockOpt

pub record TlsSocket : Type 1 where
  pub State : Type 0
  pub setsockopt : SockOpt → State → ℤ × State
  pub tx : State → Option CryptoInfo
  pub rx : State → Option CryptoInfo

-- Whether all of the calls succeed; a failing one ends the function.
module _ (k : TlsSocket) where
  set_each : List SockOpt → k.State → Bool × k.State
  set_each [] s = (true, s)
  set_each (opt ∷ opts) s =
      let (r, t) = k.setsockopt opt s in elim r [ pos n ↦ set_each opts t | negsuc e ↦ (false, t) ]

  unfoldable pub enable_sender : KtlsKeys → k.State → Bool × k.State
  unfolding set_each
  enable_sender keys s = set_each (tcp_ulp ∷ tls_tx keys.tx ∷ tls_rx keys.rx ∷ []) s

  unfoldable pub enable_receiver : KtlsKeys → k.State → Bool × k.State
  unfolding set_each
  enable_receiver keys s = set_each (tcp_ulp ∷ tls_tx keys.rx ∷ tls_rx keys.tx ∷ []) s
