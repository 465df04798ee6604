-- ===== src/Tests/ThreadCached.antt =====
-- src/thread_cached.rs at two threads.
use melinoe.Prelude.{ℕ, ◌≡◌, refl, Option, none, some, List, [], ◌∷◌}
use melinoe.Machine.{Outcome, returned}
use melinoe.ThreadCached.{Call, on_get_or_init, on_set, on_get, on_clear, calls}
use melinoe.ThreadCached.Threads.{of_thread, get_or_init_once}

abbrev seven : Option ℕ → Outcome ℕ ℕ × Option ℕ
seven c = (returned 7, c)

abbrev thirteen : Option ℕ → Outcome ℕ ℕ × Option ℕ
thirteen c = (returned 13, c)

-- After thread 1 has cached 7.
abbrev later : List (ℕ × Call ℕ ℕ)
later = (2, on_set 11) ∷ (1, on_get_or_init thirteen) ∷ (2, on_clear) ∷ (1, on_get) ∷ []

abbrev empty_caches : ℕ → Option ℕ
empty_caches t = none

get_or_init_once_example :
    (of_thread 1 (calls ((1, on_get_or_init seven) ∷ later) empty_caches).0
      ≡ returned (some 7) ∷ returned (some 7) ∷ returned (some 7) ∷ [])
    × ((calls ((1, on_get_or_init seven) ∷ later) empty_caches).1 1 ≡ some 7)
get_or_init_once_example = get_or_init_once 1 seven 7 later empty_caches refl refl (tt, (tt, tt))
