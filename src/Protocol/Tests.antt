-- ===== src/Protocol/Tests.antt =====
-- include/protocol.hpp: its properties on concrete messages and paths.
use uring_sync.Base.{ℕ, ◌+◌, ◌≡◌, refl, List, [], ◌∷◌, true, false, some, arith, length, drop}
use uring_sync.Protocol.Codec.{file_hdr, parse_header}
use uring_sync.Protocol.Messages.{make_file_hdr, make_hello}
use uring_sync.Protocol.Parsers.{parse_file_hdr}
use uring_sync.Protocol.RoundTrip.{file_hdr_round_trip}
use uring_sync.Protocol.SafePath.{is_safe_path, stays_inside, contains}
use uring_sync.Protocol.SafePath.Inside.{is_safe_path-stays_inside, dotted_name_refused}

-- a/b
abbrev path : List ℕ
path = 97 ∷ 47 ∷ 98 ∷ []

abbrev header : List ℕ
header = make_file_hdr 300 0o644 path

file_hdr_round_trip_example :
    (parse_header header ≡ (file_hdr, 17))
    × (length header ≡ 5 + 17)
    × (parse_file_hdr (drop 5 header) 17 ≡ some (record { size = 300; mode = 0o644; path = path }))
file_hdr_round_trip_example = file_hdr_round_trip 300 0o644 path (omega arith) (omega arith)

abbrev nonce : List ℕ
nonce = 1 ∷ 2 ∷ 3 ∷ 4 ∷ 5 ∷ 6 ∷ 7 ∷ 8 ∷ 9 ∷ 10 ∷ 11 ∷ 12 ∷ 13 ∷ 14 ∷ 15 ∷ 16 ∷ []

abbrev greeting : List ℕ
greeting = make_hello path nonce

path_is_safe : is_safe_path path ≡ true
unfolding is_safe_path
path_is_safe = refl

is_safe_path-stays_inside_example : stays_inside path ≡ true
is_safe_path-stays_inside_example = is_safe_path-stays_inside path path_is_safe

one_name : contains (47 ∷ []) (97 ∷ 46 ∷ 46 ∷ 98 ∷ []) ≡ false
unfolding contains
one_name = refl

dotted_name_refused_example :
    (stays_inside (97 ∷ 46 ∷ 46 ∷ 98 ∷ []) ≡ true) × (is_safe_path (97 ∷ 46 ∷ 46 ∷ 98 ∷ []) ≡ false)
dotted_name_refused_example = dotted_name_refused (97 ∷ []) (98 ∷ []) one_name (omega arith)
