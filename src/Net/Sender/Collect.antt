-- ===== src/Net/Sender/Collect.antt =====
-- src/net.cpp, `collect_files` and `run_sender` from the authentication on.
pub mod Directory
pub mod Whole
use uring_sync.Base.{ℕ, zero, suc, List, [], ◌∷◌, ◌++◌, Bool, true, false, ◌||◌, Option, none, some}
use uring_sync.Base.Int.{ℤ}
use uring_sync.Base.Text.{codes}
use uring_sync.Paths.{is_empty, filename, parent_path}
use uring_sync.Protocol.SafePath.{slash}
use uring_sync.Net.Handshake.{same_text}
use uring_sync.Net.Sender.{Host, Sent, failed, unfinished}
use uring_sync.Net.Sender.Run.{send_files}

-- What `stat` gives, as far as the sender looks at it.
pub data Kind : Type 0 where
  regular directory other : Kind

-- The directories of the sender. They are not part of the program: `readdir` has the names that it
-- gives after `opendir`, which is `none` where it fails, as `stat` is.
pub record Directories : Type 0 where
  pub readdir : List ℕ → Option (List (List ℕ))
  pub stat : List ℕ → Option Kind

abbrev pub is_dots : List ℕ → Bool
is_dots name = same_text name (codes ".") || same_text name (codes "..")

-- `rel_path.empty() ? name : rel_path + "/" + name`
abbrev pub new_rel : List ℕ → List ℕ → List ℕ
new_rel [] name = name
new_rel (c ∷ rel_path) name = (c ∷ rel_path) ++ slash ∷ name

abbrev pub full_path : List ℕ → List ℕ → List ℕ
full_path base_path [] = base_path
full_path base_path (c ∷ rel_path) = base_path ++ slash ∷ c ∷ rel_path

module _ (d : Directories) (base_path : List ℕ) where
  -- `readdir` until there is no entry left. `inside` is the call for a directory in it; a result
  -- `none` is one that was not reached, `files` are those found so far.
  module _ (inside : List ℕ → List (List ℕ) → Option (List (List ℕ))) (rel_path : List ℕ) where
    unfoldable pub collect_each : List (List ℕ) → List (List ℕ) → Option (List (List ℕ))
    collect_each [] files = some files
    collect_each (name ∷ names) files =
        let rel = new_rel rel_path name in
        elim (is_dots name) [
          | true ↦ collect_each names files
          | false ↦ elim (d.stat (base_path ++ slash ∷ rel)) [
            | none ↦ collect_each names files
            | some kind ↦ elim kind [
              | directory ↦ elim (inside rel files) [
                | none ↦ none
                | some files' ↦ collect_each names files'
              ]
              | regular ↦ collect_each names (files ++ rel ∷ [])
              | other ↦ collect_each names files
            ]
          ]
        ]

  -- At most `depth` directories inside each other.
  unfoldable pub collect_files : ℕ → List ℕ → List (List ℕ) → Option (List (List ℕ))
  unfolding collect_each
  collect_files zero rel_path files = none
  collect_files (suc depth) rel_path files = elim (d.readdir (full_path base_path rel_path)) [
    | none ↦ some files
    | some names ↦ collect_each (collect_files depth) rel_path names files
  ]

-- From the authentication on. `failed` is exit code 1; `stat` follows links, so that what is no
-- directory is taken for a single file.
module _ (h : Host) (d : Directories) (depth retries : ℕ) (pipe_read_fd pipe_write_fd : ℤ)
    (use_splice : Bool) where
  abbrev pub send_collected : List ℕ → Option (List (List ℕ)) → h.sock.State → Sent h.sock.State
  send_collected base_path none s = unfinished
  send_collected base_path (some files) s =
      send_files h retries pipe_read_fd pipe_write_fd use_splice base_path files s

  abbrev pub send_kind : List ℕ → Option Kind → h.sock.State → Sent h.sock.State
  send_kind src_path none s = failed
  send_kind src_path (some directory) s =
      send_collected src_path (collect_files d src_path depth [] []) s
  send_kind src_path (some kind) s =
      send_collected (parent_path src_path) (some (filename src_path ∷ [])) s

  unfoldable pub run_sender : List ℕ → h.sock.State → Sent h.sock.State
  unfolding collect_files
  run_sender src_path s = send_kind src_path (d.stat src_path) s
