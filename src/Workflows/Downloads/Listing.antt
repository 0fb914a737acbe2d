-- ===== src/Workflows/Downloads/Listing.antt =====
-- src/desktop_worker/workflows/downloads.py: what a listing shows of new files.
use desktop_worker.Prelude.{
  String, ◌&&◌, ◌||◌, ◌≡◌, refl, Option, none, some, List, [], ◌∷◌, contains, ◌==◌, string_eq,
  eq_iff, arith,
}
use desktop_worker.Workflows.Downloads.{
  insert_text, sort_texts, is_new, new_of, find_new_files, snapshot,
}

contains-insert_text :
    (s : String) (ts : List String) (n : String)
    → contains (insert_text s ts) n ≡ (n == s || contains ts n)
unfolding insert_text
contains-insert_text s [] n = refl
contains-insert_text s (t ∷ ts) n = ground (arith, contains-insert_text s ts n)

contains-sort_texts : (ts : List String) (n : String) → contains (sort_texts ts) n ≡ contains ts n
unfolding sort_texts
contains-sort_texts [] n = refl
contains-sort_texts (t ∷ ts) n =
    ground (arith, contains-sort_texts ts n, contains-insert_text t (sort_texts ts) n)

contains-new_of :
    (before ns : List String) (n : String)
    → contains (new_of before ns) n ≡ (contains ns n && is_new before n)
unfolding new_of
contains-new_of before [] n = refl
contains-new_of before (m ∷ ns) n = ground (arith, contains-new_of before ns n, eq_iff n m)

-- A name is listed as new exactly when it is in the folder now, was not there before, and is not the
-- name of a partial download.
pub contains-find_new_files :
    (before : List String) (o : Option (List String)) (n : String)
    → contains (find_new_files before o) n ≡ (contains (snapshot o) n && is_new before n)
unfolding find_new_files
contains-find_new_files before none n = refl
contains-find_new_files before (some ns) n =
    ground (arith, contains-sort_texts (new_of before ns) n, contains-new_of before ns n)
