-- ===== src/Main/Network/Ports.antt =====
-- src/main.cpp: `parse_host_port` and the text that it reads.
use uring_sync.Base.{
  ℕ, ◌%◌, ◌^◌, ◌<◌, ◌≡◌, refl, ap, ◌∙◌, List, [], ◌∷◌, ◌++◌, false, none, some, ◌==◌, if◌then◌else◌,
  All, arith,
}
use uring_sync.Main.Numbers.{atoi-to_string, to_string, to_string-digits, IsDigit}
use uring_sync.Main.Network.{split_last, to_port, with_port, after_colon, parse_host_port}

split_last-digits : (text : List ℕ) → All IsDigit text → split_last b':' text ≡ none
unfolding split_last
split_last-digits [] a = refl
split_last-digits (c ∷ text) a =
    let other : (c == b':') ≡ false = ground arith in rw (split_last-digits text a.1, other)

split_last-append :
    (host text : List ℕ)
    → All IsDigit text
    → split_last b':' (host ++ b':' ∷ text) ≡ some (host, text)
unfolding split_last
split_last-append [] text a = rw (split_last-digits text a, split_last) refl
split_last-append (c ∷ host) text a = rw (split_last-append host text a) refl

-- A host, a colon and a printed number below 2 ^ 31, whatever the host is: the host comes back, also
-- if it has colons, with the number cut to 16 bits; and if that is zero the text is refused.
pub parse_host_port-printed :
    (host : List ℕ) (n : ℕ)
    → n < 2 ^ 31
    → parse_host_port (host ++ b':' ∷ to_string n)
      ≡ (if n % 2 ^ 16 == 0 then none else some (host, n % 2 ^ 16))
unfolding parse_host_port
parse_host_port-printed host n h =
    ap after_colon (split_last-append host (to_string n) (to_string-digits n))
    ∙ ap (λ z. with_port host (to_port z)) (atoi-to_string n h)
    ∙ ground arith
