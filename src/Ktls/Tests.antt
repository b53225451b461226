-- ===== src/Ktls/Tests.antt =====
-- include/ktls.hpp: the keys over sockets that take every option.
use mathlib.Core.Option.{some-injective}
use uring_sync.Base.{
  ℕ, ◌≡◌, refl, ap, sym, ◌∙◌, List, [], ◌∷◌, true, Option, none, some, length, replicate,
  length-replicate,
}
use uring_sync.Base.Int.{ℤ, pos}
use uring_sync.Ktls.{
  CryptoInfo, KtlsKeys, Hkdf, cut, derive_keys, SockOpt, tcp_ulp, tls_tx, tls_rx, TlsSocket,
  set_each, enable_sender, enable_receiver, info,
}
use uring_sync.Ktls.Crossing.{Installs, all_fields, directions_cross}

abbrev Pair : Type 0
Pair = Option CryptoInfo × Option CryptoInfo

abbrev set_option : SockOpt → Pair → ℤ × Pair
set_option tcp_ulp s = (pos 0, s)
set_option (tls_tx c) s = (pos 0, (some c, s.1))
set_option (tls_rx c) s = (pos 0, (s.0, some c))

abbrev socket : TlsSocket
socket = record { State = Pair; setsockopt = set_option; tx = λ s. s.0; rx = λ s. s.1 }

socket-Installs : Installs socket
socket-Installs = record {
  ulp = λ s n e. (refl, refl);
  sets_tx = λ c s n e. (refl, refl);
  sets_rx = λ c s n e. (refl, refl);
}

-- As many sevens as are asked for.
abbrev sevens : Hkdf
sevens secret salt text len = some (replicate len 7)

abbrev keys : KtlsKeys
keys = cut (replicate 56 7)

abbrev plain : Pair
plain = (none, none)

sized :
    (secret salt text : List ℕ) (len : ℕ) (material : List ℕ)
    → sevens secret salt text len ≡ some material
    → length material ≡ len
sized secret salt text len material e =
    ap length (sym (some-injective (replicate len 7) material e)) ∙ length-replicate len 7

keys_derived : derive_keys sevens (97 ∷ []) (1 ∷ []) (2 ∷ []) ≡ some keys
unfolding derive_keys
keys_derived = refl

both_enabled :
    ((enable_sender socket keys plain).0 ≡ true) × ((enable_receiver socket keys plain).0 ≡ true)
unfolding enable_sender enable_receiver set_each
both_enabled = (refl, refl)

directions_cross_example :
    let t = (enable_sender socket keys plain).1 in
    let u = (enable_receiver socket keys plain).1 in
    (t.0 ≡ u.1)
    × (u.0 ≡ t.1)
    × (t.0 ≡ some keys.tx)
    × (u.0 ≡ some keys.rx)
    × (sevens (97 ∷ []) (1 ∷ 2 ∷ []) info 56 ≡ some (all_fields keys))
directions_cross_example =
    directions_cross socket socket-Installs socket socket-Installs sevens (97 ∷ []) (1 ∷ [])
      (2 ∷ []) keys plain plain sized keys_derived both_enabled.0 both_enabled.1
