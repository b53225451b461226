-- ===== src/Net/Tests/Collect.antt =====
-- src/net.cpp, `run_sender`: a directory with a file in it and one in a directory below it.
use mathlib.Core.List.{cons≢nil}
use uring_sync.Base.{ℕ, ◌≡◌, refl, List, [], ◌∷◌, false, true, Option, none, some, if◌then◌else◌}
use uring_sync.Base.Int.{negsuc}
use uring_sync.Base.Text.{codes}
use uring_sync.Net.Handshake.{same_text}
use uring_sync.Net.Stream.{SourceFile, stream}
use uring_sync.Net.Sender.{Host, failed, sent}
use uring_sync.Net.Sender.Run.{ServesAll}
use uring_sync.Net.Sender.Collect.{Kind, Directories, regular, directory, run_sender}
use uring_sync.Net.Sender.Collect.Directory.{Entries, empty, dots, file, folder, names}
use uring_sync.Net.Sender.Collect.Whole.{run_sender-sends, bare_name_lost}
use uring_sync.Net.Tests.{Wire, bytes, quiet, host, host-Works}

abbrev inner : Entries
inner = dots false (file (codes "b") empty)

abbrev entries : Entries
entries = folder (codes "d") inner (dots true (file (codes "a") empty))

abbrev listing : List ℕ → Option (List (List ℕ))
listing path =
    if same_text path (codes "s")
    then some (names entries)
    else if same_text path (codes "s/d")
    then some (names inner)
    else none

abbrev kind_of : List ℕ → Option Kind
kind_of path =
    if same_text path (codes "s")
    then some directory
    else if same_text path (codes "s/d")
    then some directory
    else some regular

abbrev directories : Directories
directories = record { readdir = listing; stat = kind_of }

abbrev files : List SourceFile
files =
    record { path = codes "d/b"; mode = 0o100644; content = bytes }
    ∷ record { path = codes "a"; mode = 0o100644; content = bytes }
    ∷ []

served : ServesAll host (codes "s") files
served = ((λ s. (3, refl, refl, refl, refl)), ((λ s. (3, refl, refl, refl, refl)), tt))

run_sender-sends_example :
    (t : Wire) × (run_sender host directories 2 0 (negsuc 0) (negsuc 0) false (codes "s") quiet
      ≡ sent t)
    × (t.out ≡ stream files)
run_sender-sends_example =
    run_sender-sends host host-Works directories 0 (negsuc 0) (negsuc 0) 1 (codes "s") entries files
      quiet refl refl (cons≢nil, refl, refl, refl, (refl, refl, tt), (refl, refl, tt)) (tt, tt) refl
      served

abbrev closed_root : Host
closed_root = record host { open_file = λ path s. (negsuc 1, s) }

bare_name_lost_example :
    run_sender closed_root directories 1 0 (negsuc 0) (negsuc 0) false (codes "notes") quiet
    ≡ failed
bare_name_lost_example =
    bare_name_lost closed_root directories 1 0 (negsuc 0) (negsuc 0) false (codes "notes") quiet 1
      refl refl refl
