-- ===== src/Tests/Cell.antt =====
-- src/cell/cow.rs at two segments.
use melinoe.Prelude.{ℕ, ◌≡◌, refl, false, [], ◌∷◌}
use melinoe.Cell.{borrow_policy, cow_from_segments}
use melinoe.Cell.Contents.{contents, is_borrowed, contents-cow_from_segments}

abbrev copy : ℕ → ℕ
copy n = n

contents-cow_from_segments_example :
    (contents (cow_from_segments copy (1 ∷ 2 ∷ []) (3 ∷ []) borrow_policy) ≡ 1 ∷ 2 ∷ 3 ∷ [])
    × (is_borrowed (cow_from_segments copy (1 ∷ 2 ∷ []) (3 ∷ []) borrow_policy) ≡ false)
contents-cow_from_segments_example =
    contents-cow_from_segments copy (λ n. refl) (1 ∷ 2 ∷ []) (3 ∷ []) borrow_policy
