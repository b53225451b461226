-- ===== src/SyncCopy/Tests.antt =====
-- src/main.cpp, `sync_worker_thread`: the copy over calls of its own, which move up to two bytes.
use uring_sync.Base.Maps.{erase}
use uring_sync.Base.{ℕ, suc, ◌-◌, ◌≡◌, min, refl, List, [], ◌∷◌, ◌++◌, arith, take, drop}
use uring_sync.Base.Int.{ℤ, pos}
use uring_sync.FileCopy.Types.{Stats}
use uring_sync.FileCopy.Start.{FileWorkItem}
use uring_sync.SyncCopy.{Calls, sync_file}
use uring_sync.SyncCopy.Whole.{Copies, sync_file-copies}
use uring_sync.FileCopy.Handles.{Handle, source, copy, unused, unused-free}

abbrev bytes : List ℕ
bytes = 10 ∷ 20 ∷ 30 ∷ []

-- The text of the copy, and the open descriptors.
record Files : Type 0 where
  text : List ℕ
  open_now : List (ℕ × Handle)

abbrev opened : Handle → Files → ℤ × Files
opened h s = (pos (unused s.open_now), record s { open_now = (unused s.open_now, h) ∷ s.open_now })

abbrev emptied : ℤ × Files → ℤ × Files
emptied (r, s) = (r, record s { text = [] })

abbrev calls : Calls
calls = record {
  State = Files;
  open_source = λ path s. opened source s;
  fstat = λ fd s. (pos 0, record { size = 3; mode = 0o100644 }, s);
  open_copy = λ path mode s. emptied (opened copy s);
  copy_file_range = λ i o off to len s.
      (pos (min len 2), record s { text = s.text ++ take (min len 2) (drop off bytes) });
  close = λ fd s. record s { open_now = erase fd s.open_now };
  dst = λ s. s.text;
}

abbrev calls-Copies : Copies calls (97 ∷ []) (98 ∷ []) 0o100644 bytes
calls-Copies = record {
  handles = λ s. s.open_now;
  opens_source = λ s. (unused s.open_now, refl, refl);
  stats = λ fd s h. (0, refl, refl, refl);
  opens_copy = λ permissions s e. (unused s.open_now, refl, unused-free s.open_now, refl, refl);
  copies = λ i o off to len s hi ho more fits e.
      let whole : suc (min len 2 - 1) ≡ min len 2 = omega arith in
      (min len 2 - 1, rw whole refl, omega arith, rw whole refl, refl);
  closes = λ fd s. (refl, refl);
}

abbrev stats : Stats
stats = record {
  files_total = 1;
  files_completed = 0;
  files_failed = 0;
  bytes_total = 0;
  bytes_copied = 0;
  dirs_created = 0;
}

abbrev item : FileWorkItem
item = record { src_path = 97 ∷ []; dst_path = 98 ∷ []; inode = 7 }

abbrev start : Files
start = record { text = []; open_now = [] }

sync_file-copies_example :
    let r = sync_file calls item stats start in
    (r.1.text ≡ bytes)
    × (r.1.open_now ≡ [])
    × (r.0 ≡ record stats { files_completed = 1; bytes_total = 3; bytes_copied = 3 })
sync_file-copies_example =
    sync_file-copies calls item 0o100644 bytes calls-Copies stats start (omega arith)
