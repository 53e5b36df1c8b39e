-- ===== src/Store/Tests.antt =====
-- The theorems on a disk without files and a system that does all it is asked.
use ad_index.Base.{ℕ, ◌≡◌, refl, true, false, List, [], ◌∷◌, none, some, inr, arith}
use ad_index.Store.File.{success, Disk, file_at, System, FileStore, write_file, read_file}
use ad_index.Store.Reading.{Works, HasWritten, write_file-read_file}
use ad_index.Store.Sizes.{expands, run_call, Tracks, run_call-Tracks}

abbrev obliging : System
obliging = record {
  opens = λ name r. true;
  seeks = λ pos. true;
  writes = λ pos n. some n;
  reads = λ pos n. some n;
  truncates = λ n. true;
}

obliging-Works : Works obliging
obliging-Works = record {
  opens_all = λ name. refl;
  seeks_all = λ pos h. refl;
  writes_all = λ pos n h. refl;
  reads_all = λ pos n h. refl;
}

abbrev no_files : Disk
no_files name = none

abbrev letter : List ℕ
letter = b'a' ∷ []

abbrev two_bytes : List ℕ
two_bytes = 7 ∷ 9 ∷ []

abbrev open_store : FileStore
open_store = record { fd = some false; size = 0; name = letter }

write_file-read_file_example :
    (s' : FileStore) × (disk' : Disk) × (write_file obliging open_store no_files 3 two_bytes
      ≡ (success, s', disk'))
    × (read_file obliging s' disk' 3 2 ≡ (success, two_bytes))
    × HasWritten (file_at no_files letter) (file_at disk' letter) 3 two_bytes
write_file-read_file_example =
    write_file-read_file obliging obliging-Works open_store no_files 3 two_bytes refl (omega arith)
      (omega arith)

run_call-Tracks_example :
    Tracks
      (run_call obliging open_store no_files (expands 64)).1
      (run_call obliging open_store no_files (expands 64)).2
run_call-Tracks_example =
    run_call-Tracks obliging (λ pos n. inr refl) open_store no_files (expands 64) (omega arith)
      (λ r e. refl)
