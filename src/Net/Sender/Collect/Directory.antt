-- ===== src/Net/Sender/Collect/Directory.antt =====
-- src/net.cpp, `collect_files`: a whole directory, and a single file.
use uring_sync.Base.{
  ℕ, zero, suc, ◌≡◌, ◌≢◌, refl, map, ap, ap₂, sym, ◌∙◌, List, [], ◌∷◌, ◌++◌, Bool, true, false,
  none, some, append_assoc, append-nil,
}
use uring_sync.Base.Text.{codes}
use uring_sync.Protocol.SafePath.{slash}
use uring_sync.Net.Sender.Run.{paths}
use uring_sync.Net.Sender.Collect.{
  Directories, regular, directory, other, is_dots, new_rel, full_path, collect_each, collect_files,
}

-- The entries of a directory, in the order of `readdir`: `.` and `..`, files, directories with their
-- own entries, entries of another kind, those that are gone before `stat`,
-- and directories that cannot be opened.
pub data Entries : Type 0 where
  empty : Entries
  dots : Bool → Entries → Entries
  file special gone locked : List ℕ → Entries → Entries
  folder : List ℕ → Entries → Entries → Entries

abbrev pub dots_name : Bool → List ℕ
dots_name false = codes "."
dots_name true = codes ".."

abbrev pub names : Entries → List (List ℕ)
names empty = []
names (dots two rest) = dots_name two ∷ names rest
names (file name rest) = name ∷ names rest
names (special name rest) = name ∷ names rest
names (gone name rest) = name ∷ names rest
names (locked name rest) = name ∷ names rest
names (folder name inner rest) = name ∷ names rest

-- The files in it and below it, by their paths from there.
abbrev pub all_files : Entries → List (List ℕ)
all_files empty = []
all_files (dots two rest) = all_files rest
all_files (file name rest) = name ∷ all_files rest
all_files (special name rest) = all_files rest
all_files (gone name rest) = all_files rest
all_files (locked name rest) = all_files rest
all_files (folder name inner rest) =
    map (λ path. name ++ slash ∷ path) (all_files inner) ++ all_files rest

-- The same, by the paths that the code makes.
abbrev files_below : List ℕ → Entries → List (List ℕ)
files_below rel empty = []
files_below rel (dots two rest) = files_below rel rest
files_below rel (file name rest) = new_rel rel name ∷ files_below rel rest
files_below rel (special name rest) = files_below rel rest
files_below rel (gone name rest) = files_below rel rest
files_below rel (locked name rest) = files_below rel rest
files_below rel (folder name inner rest) =
    files_below (new_rel rel name) inner ++ files_below rel rest

-- No more than `n` directories are inside each other.
abbrev pub IsWithin : ℕ → Entries → Type 0
IsWithin n empty = Unit
IsWithin n (dots two rest) = IsWithin n rest
IsWithin n (file name rest) = IsWithin n rest
IsWithin n (special name rest) = IsWithin n rest
IsWithin n (gone name rest) = IsWithin n rest
IsWithin zero (locked name rest) = ⊥
IsWithin (suc n) (locked name rest) = IsWithin (suc n) rest
IsWithin zero (folder name inner rest) = ⊥
IsWithin (suc n) (folder name inner rest) = IsWithin n inner × IsWithin (suc n) rest

module _ (d : Directories) (base_path : List ℕ) where
  -- The directory `rel` has these entries.
  abbrev pub Shows : List ℕ → Entries → Type 0
  Shows rel empty = Unit
  Shows rel (dots two rest) = Shows rel rest
  Shows rel (file name rest) =
      (is_dots name ≡ false)
      × (d.stat (base_path ++ slash ∷ new_rel rel name) ≡ some regular)
      × Shows rel rest
  Shows rel (special name rest) =
      (is_dots name ≡ false)
      × (d.stat (base_path ++ slash ∷ new_rel rel name) ≡ some other)
      × Shows rel rest
  Shows rel (gone name rest) =
      (is_dots name ≡ false)
      × (d.stat (base_path ++ slash ∷ new_rel rel name) ≡ none)
      × Shows rel rest
  Shows rel (locked name rest) =
      (is_dots name ≡ false)
      × (d.stat (base_path ++ slash ∷ new_rel rel name) ≡ some directory)
      × (d.readdir (full_path base_path (new_rel rel name)) ≡ none)
      × Shows rel rest
  Shows rel (folder name inner rest) =
      (name ≢ [])
      × (is_dots name ≡ false)
      × (d.stat (base_path ++ slash ∷ new_rel rel name) ≡ some directory)
      × (d.readdir (full_path base_path (new_rel rel name)) ≡ some (names inner))
      × Shows (new_rel rel name) inner
      × Shows rel rest

  new_rel-nested :
      (rel name path : List ℕ)
      → name ≢ []
      → new_rel (new_rel rel name) path ≡ new_rel rel (name ++ slash ∷ path)
  new_rel-nested rel [] path h = absurd (h refl)
  new_rel-nested [] (c ∷ name) path h = refl
  new_rel-nested (b ∷ rel) (c ∷ name) path h =
      append_assoc (b ∷ rel) (slash ∷ c ∷ name) (slash ∷ path)

  map-nested :
      (rel name : List ℕ) (paths : List (List ℕ))
      → name ≢ []
      → map (new_rel (new_rel rel name)) paths
        ≡ map (new_rel rel) (map (λ path. name ++ slash ∷ path) paths)
  map-nested rel name [] h = refl
  map-nested rel name (path ∷ paths) h =
      ap₂ (λ p ps. p ∷ ps) (new_rel-nested rel name path h) (map-nested rel name paths h)

  map-append :
      (f : List ℕ → List ℕ) (ps qs : List (List ℕ)) → map f (ps ++ qs) ≡ map f ps ++ map f qs
  map-append f [] qs = refl
  map-append f (p ∷ ps) qs = ap (λ rest. f p ∷ rest) (map-append f ps qs)

  files_below-map :
      (rel : List ℕ) (entries : Entries)
      → Shows rel entries
      → files_below rel entries ≡ map (new_rel rel) (all_files entries)
  files_below-map rel empty v = refl
  files_below-map rel (dots two rest) v = files_below-map rel rest v
  files_below-map rel (file name rest) (_, _, v) =
      ap (λ files. new_rel rel name ∷ files) (files_below-map rel rest v)
  files_below-map rel (special name rest) (_, _, v) = files_below-map rel rest v
  files_below-map rel (gone name rest) (_, _, v) = files_below-map rel rest v
  files_below-map rel (locked name rest) (_, _, _, v) = files_below-map rel rest v
  files_below-map rel (folder name inner rest) (named, _, _, _, v, u) =
      ap₂ (λ ps qs. ps ++ qs)
        (files_below-map (new_rel rel name) inner v ∙ map-nested rel name (all_files inner) named)
        (files_below-map rel rest u)
      ∙ sym (
          map-append (new_rel rel) (map (λ path. name ++ slash ∷ path) (all_files inner))
            (all_files rest))

  map-top : (paths : List (List ℕ)) → map (new_rel []) paths ≡ paths
  map-top [] = refl
  map-top (path ∷ paths) = ap (λ rest. path ∷ rest) (map-top paths)

  collect_each-collects :
      (depth : ℕ) (rel : List ℕ) (entries : Entries) (files : List (List ℕ))
      → IsWithin depth entries
      → Shows rel entries
      → collect_each d base_path (collect_files d base_path depth) rel (names entries) files
        ≡ some (files ++ files_below rel entries)
  unfolding collect_each collect_files
  collect_each-collects depth rel empty files w v = ap some (sym (append-nil files))
  collect_each-collects depth rel (dots false rest) files w v =
      collect_each-collects depth rel rest files w v
  collect_each-collects depth rel (dots true rest) files w v =
      collect_each-collects depth rel rest files w v
  collect_each-collects depth rel (file name rest) files w (plain, kind, v) =
      rw (plain, collect_each)
        (rw (kind, collect_each)
          (collect_each-collects depth rel rest (files ++ new_rel rel name ∷ []) w v
            ∙ ap some (append_assoc files (new_rel rel name ∷ []) (files_below rel rest))))
  collect_each-collects depth rel (special name rest) files w (plain, kind, v) =
      rw (plain, collect_each)
        (rw (kind, collect_each) (collect_each-collects depth rel rest files w v))
  collect_each-collects depth rel (gone name rest) files w (plain, kind, v) =
      rw (plain, collect_each)
        (rw (kind, collect_each) (collect_each-collects depth rel rest files w v))
  collect_each-collects zero rel (locked name rest) files w v = absurd w
  collect_each-collects (suc depth) rel (locked name rest) files w (plain, kind, shut, u) =
      let inside : collect_files d base_path (suc depth) (new_rel rel name) files ≡ some files =
        rw (shut, collect_files) refl in
      rw (plain, collect_each)
        (rw (kind, collect_each)
          (rw (inside, collect_each) (collect_each-collects (suc depth) rel rest files w u)))
  collect_each-collects zero rel (folder name inner rest) files w v = absurd w
  collect_each-collects (suc depth) rel (folder name inner rest) files w
        (named, plain, kind, listed, v, u) =
      let new = new_rel rel name in
      let found = files ++ files_below new inner in
      let inside : collect_files d base_path (suc depth) new files ≡ some found =
        rw (listed, collect_files) (collect_each-collects depth new inner files w.0 v) in
      rw (plain, collect_each)
        (rw (kind, collect_each)
          (rw (inside, collect_each)
            (collect_each-collects (suc depth) rel rest found w.1 u
              ∙ ap some (append_assoc files (files_below new inner) (files_below rel rest)))))

  pub collect_files-collects :
      (depth : ℕ) (entries : Entries)
      → d.readdir base_path ≡ some (names entries)
      → Shows [] entries
      → IsWithin depth entries
      → collect_files d base_path (suc depth) [] [] ≡ some (all_files entries)
  unfolding collect_files
  collect_files-collects depth entries listed shows within =
      rw (listed, collect_files) (collect_each-collects depth [] entries [] within shows)
      ∙ ap some (files_below-map [] entries shows ∙ map-top (all_files entries))
