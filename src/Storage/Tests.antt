-- ===== src/Storage/Tests.antt =====
-- The theorems of the file service at a storage in memory.
use ai_knowledge_hub.Base.{
  ℕ, ◌≡◌, ◌≢◌, refl, String, Bool, true, false, not, List, [], ◌∷◌, any, keep, str_eq, eq_refl,
  eq_iff, arith, ok, err,
}
use ai_knowledge_hub.Storage.{StorageProvider, Opened}
use ai_knowledge_hub.Storage.Service.{
  FileError, Fault, InspectedUpload, Files, upload, download_file,
}
use ai_knowledge_hub.Storage.Backing.{IsBacked}
use ai_knowledge_hub.Storage.Histories.{History, History-IsBacked, download_file-available}

abbrev holds : List String → String → Bool
holds s k = any (λ j. str_eq j k) s

abbrev dropped : String → List String → List String
dropped k s = keep (λ j. not (str_eq j k)) s

pub holds-dropped :
    (k : String) (s : List String) (j : String)
    → str_eq j k ≡ false
    → holds (dropped k s) j ≡ holds s j
holds-dropped k [] j h = refl
holds-dropped k (i ∷ s) j h =
    ground (arith, holds-dropped k s j, eq_iff i j, eq_iff i k, eq_iff j k)

pub holds-first : (k : String) (s : List String) → holds (k ∷ s) k ≡ true
holds-first k s = ground (arith, eq_refl k)

pub holds-rest :
    (k : String) (s : List String) (j : String) → holds s j ≡ true → holds (k ∷ s) j ≡ true
holds-rest k s j h = ground (arith, h)

abbrev opened_in : Bool → Opened Unit
opened_in true = Opened.stream tt
opened_in false = Opened.missing

pub opened_in-missing : (b : Bool) → opened_in b ≡ Opened.missing → b ≡ false
opened_in-missing true h = cc
opened_in-missing false h = refl

abbrev pub memory : StorageProvider
memory = record {
  Store = List String;
  Content = Unit;
  has = holds;
  put = λ k c s. (k ∷ s, false);
  delete = λ k s. (dropped k s, false);
  open_object = λ k s. opened_in (holds s k);
  put-has = λ k c s h. holds-first k s;
  put-others = λ k c s j h. holds-rest k s j h;
  delete-others = holds-dropped;
  missing-has = λ k s h. opened_in-missing (holds s k) h;
}

abbrev empty : Files memory
empty = record { rows = []; objects = [] }

empty-IsBacked : IsBacked memory "local" "files" empty
empty-IsBacked = record { unique = λ k. omega arith; backed = refl }

abbrev inspected : InspectedUpload
inspected = record {
  original_filename = "notes.txt";
  content_type = "text/plain";
  size_bytes = 5;
  sha256 = "digest";
}

abbrev pub accepted : ℕ → Fault
accepted n = Fault.no_fault

abbrev uploaded : Files memory
unfolding upload
uploaded = (upload memory "local" "files" 4 accepted 1 "f" "users/1/f" (ok inspected) tt empty).0

History-IsBacked_example : IsBacked memory "local" "files" uploaded
unfolding upload
History-IsBacked_example =
    History-IsBacked memory "local" "files" 4 empty uploaded empty-IsBacked
      (History.uploads accepted 1 "f" "users/1/f" (ok inspected) tt History.begins)

one-IsBacked : IsBacked memory "local" "files" uploaded
unfolding upload
one-IsBacked = record { unique = λ k. ground arith; backed = refl }

download_file-available_example :
    (download_file memory "local" "files" 4 accepted 1 "f" uploaded).1
    ≢ err FileError.file_content_unavailable
download_file-available_example =
    download_file-available memory "local" "files" 4 accepted 1 "f" uploaded one-IsBacked
