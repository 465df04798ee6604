-- ===== src/Prelude/Slices.antt =====
-- Sub-slices of a list: what a reborrow `&xs[base..base + len]` reads, and what a write through
-- `&mut xs[base..base + len]` leaves.
use Prim.Native.Nat.{ℕ, zero, suc, ◌+◌, ◌-◌, ◌*◌, ◌≤◌, min}
use mathlib.Core.Path.{◌≡◌, refl, ap, sym, ◌∙◌}
use mathlib.Core.List.{List, [], ◌∷◌, ◌++◌}
use native.Mathlib.Omega.{arith}
use melinoe.Prelude.Lists.{length, flatten, tabulate}

module _ {ℓ} {A : Type ℓ} where
  -- At most `l` entries from index `b` on: what lies past the end is not there.
  abbrev pub slice : List A → ℕ → ℕ → List A
  slice [] b l = []
  slice (x ∷ m) (suc b) l = slice m b l
  slice (x ∷ m) zero zero = []
  slice (x ∷ m) zero (suc l) = x ∷ slice m zero l

  -- The entries of a slice given anew, one by one; a slice never changes its length.
  abbrev pub overwrite : List A → List A → List A
  overwrite [] vs = []
  overwrite (x ∷ xs) [] = x ∷ xs
  overwrite (x ∷ xs) (v ∷ vs) = v ∷ overwrite xs vs

  -- `m` after the `l` entries from index `b` on were overwritten.
  abbrev pub write_slice : List A → ℕ → ℕ → List A → List A
  write_slice [] b l vs = []
  write_slice (x ∷ m) (suc b) l vs = x ∷ write_slice m b l vs
  write_slice (x ∷ m) zero zero vs = x ∷ m
  write_slice (x ∷ m) zero (suc l) [] = x ∷ m
  write_slice (x ∷ m) zero (suc l) (v ∷ vs) = v ∷ write_slice m zero l vs

  pub length-overwrite : (xs vs : List A) → length (overwrite xs vs) ≡ length xs
  length-overwrite [] vs = refl
  length-overwrite (x ∷ xs) [] = refl
  length-overwrite (x ∷ xs) (v ∷ vs) = ap suc (length-overwrite xs vs)

  pub overwrite_same : (xs vs : List A) → length vs ≡ length xs → overwrite xs vs ≡ vs
  overwrite_same [] [] e = refl
  overwrite_same [] (v ∷ vs) e = absurd (omega arith)
  overwrite_same (x ∷ xs) [] e = absurd (omega arith)
  overwrite_same (x ∷ xs) (v ∷ vs) e = ap (◌∷◌ v) (overwrite_same xs vs (omega arith))

  pub length-slice : (m : List A) (b l : ℕ) → length (slice m b l) ≡ min l (length m - b)
  length-slice [] b l = omega arith
  length-slice (x ∷ m) (suc b) l = omega (arith, length-slice m b l)
  length-slice (x ∷ m) zero zero = omega arith
  length-slice (x ∷ m) zero (suc l) = omega (arith, length-slice m zero l)

  pub slice_all : (m : List A) (l : ℕ) → length m ≤ l → slice m 0 l ≡ m
  slice_all [] l h = refl
  slice_all (x ∷ m) zero h = absurd (omega arith)
  slice_all (x ∷ m) (suc l) h = ap (◌∷◌ x) (slice_all m l (omega arith))

  pub slice_past : (m : List A) (b l : ℕ) → length m ≤ b → slice m b l ≡ []
  slice_past [] b l h = refl
  slice_past (x ∷ m) zero l h = absurd (omega arith)
  slice_past (x ∷ m) (suc b) l h = slice_past m b l (omega arith)

  pub slice_none : (m : List A) (b : ℕ) → slice m b 0 ≡ []
  slice_none [] b = refl
  slice_none (x ∷ m) zero = refl
  slice_none (x ∷ m) (suc b) = slice_none m b

  -- A slice reaches at most to the end.
  pub slice_clip : (m : List A) (b l : ℕ) → slice m b (min l (length m - b)) ≡ slice m b l
  slice_clip [] b l = refl
  slice_clip (x ∷ m) (suc b) l = ap (slice m b) (omega arith) ∙ slice_clip m b l
  slice_clip (x ∷ m) zero zero =
      ap (slice (x ∷ m) 0) (let e : min 0 (length (x ∷ m) - 0) ≡ 0 = omega arith in e)
  slice_clip (x ∷ m) zero (suc l) =
      ap (slice (x ∷ m) 0)
        (let e : min (suc l) (length (x ∷ m) - 0) ≡ suc (min l (length m - 0)) = omega arith in e)
      ∙ ap (◌∷◌ x) (slice_clip m zero l)

  slice_at : (m : List A) {b c l k : ℕ} → b ≡ c → l ≡ k → slice m b l ≡ slice m c k
  slice_at m e f = λ i. slice m (e i) (f i)

  -- A slice of a slice.
  pub slice-slice :
      (m : List A) (b n c l : ℕ) → slice (slice m b n) c l ≡ slice m (b + c) (min l (n - c))
  slice-slice [] b n c l = refl
  slice-slice (x ∷ m) (suc b) n c l =
      slice-slice m b n c l ∙ slice_at (x ∷ m) {b = suc (b + c)} (omega arith) refl
  slice-slice (x ∷ m) zero zero c l =
      sym (slice_none (x ∷ m) (0 + c)) ∙ slice_at (x ∷ m) {b = 0 + c} refl (omega arith)
  slice-slice (x ∷ m) zero (suc n) zero zero =
      slice_at (x ∷ m) {b = 0} {c = 0 + 0} {l = 0} {k = min 0 (suc n - 0)} (omega arith)
        (omega arith)
  slice-slice (x ∷ m) zero (suc n) zero (suc l) =
      ap (◌∷◌ x) (slice-slice m 0 n 0 l ∙ slice_at m {b = 0 + 0} {c = 0} (omega arith) refl)
      ∙ slice_at (x ∷ m) {b = 0} {c = 0 + 0} {l = suc (min l (n - 0))} {k = min (suc l) (suc n - 0)}
          (omega arith) (omega arith)
  slice-slice (x ∷ m) zero (suc n) (suc c) l =
      slice-slice m 0 n c l ∙ slice_at (x ∷ m) {b = suc (0 + c)} (omega arith) (omega arith)

  pub slice-slice_append :
      (m : List A) (b l k : ℕ) → slice m b (l + k) ≡ slice m b l ++ slice m (b + l) k
  slice-slice_append [] b l k = refl
  slice-slice_append (x ∷ m) (suc b) l k =
      slice-slice_append m b l k
      ∙ ap (λ t. slice m b l ++ slice (x ∷ m) t k)
          (let e : suc (b + l) ≡ suc b + l = omega arith in e)
  slice-slice_append (x ∷ m) zero zero k =
      ap (slice (x ∷ m) 0) (let e : 0 + k ≡ k = omega arith in e)
      ∙ ap (λ t. slice (x ∷ m) t k) (let e : 0 ≡ 0 + 0 = omega arith in e)
  slice-slice_append (x ∷ m) zero (suc l) k =
      ap (slice (x ∷ m) 0) (let e : suc l + k ≡ suc (l + k) = omega arith in e)
      ∙ ap (◌∷◌ x) (slice-slice_append m zero l k)
      ∙ ap (λ t. x ∷ (slice m 0 l ++ slice (x ∷ m) t k))
          (let e : suc (0 + l) ≡ 0 + suc l = omega arith in e)

  pub length-write_slice :
      (m : List A) (b l : ℕ) (vs : List A) → length (write_slice m b l vs) ≡ length m
  length-write_slice [] b l vs = refl
  length-write_slice (x ∷ m) (suc b) l vs = ap suc (length-write_slice m b l vs)
  length-write_slice (x ∷ m) zero zero vs = refl
  length-write_slice (x ∷ m) zero (suc l) [] = refl
  length-write_slice (x ∷ m) zero (suc l) (v ∷ vs) = ap suc (length-write_slice m zero l vs)

  pub slice-write_self :
      (m : List A) (b l : ℕ) (vs : List A)
      → slice (write_slice m b l vs) b l ≡ overwrite (slice m b l) vs
  slice-write_self [] b l vs = refl
  slice-write_self (x ∷ m) (suc b) l vs = slice-write_self m b l vs
  slice-write_self (x ∷ m) zero zero vs = refl
  slice-write_self (x ∷ m) zero (suc l) [] = refl
  slice-write_self (x ∷ m) zero (suc l) (v ∷ vs) = ap (◌∷◌ v) (slice-write_self m zero l vs)

  pub slice-write_before :
      (m : List A) (b l : ℕ) (vs : List A) (c k : ℕ)
      → c + k ≤ b
      → slice (write_slice m b l vs) c k ≡ slice m c k
  slice-write_before [] b l vs c k h = refl
  slice-write_before (x ∷ m) zero zero vs c k h = refl
  slice-write_before (x ∷ m) zero (suc l) [] c k h = refl
  slice-write_before (x ∷ m) zero (suc l) (v ∷ vs) zero zero h = refl
  slice-write_before (x ∷ m) zero (suc l) (v ∷ vs) zero (suc k) h = absurd (omega arith)
  slice-write_before (x ∷ m) zero (suc l) (v ∷ vs) (suc c) k h = absurd (omega arith)
  slice-write_before (x ∷ m) (suc b) l vs zero zero h = refl
  slice-write_before (x ∷ m) (suc b) l vs zero (suc k) h =
      ap (◌∷◌ x) (slice-write_before m b l vs zero k (omega arith))
  slice-write_before (x ∷ m) (suc b) l vs (suc c) k h =
      slice-write_before m b l vs c k (omega arith)

  pub slice-write_after :
      (m : List A) (b l : ℕ) (vs : List A) (c k : ℕ)
      → b + l ≤ c
      → slice (write_slice m b l vs) c k ≡ slice m c k
  slice-write_after [] b l vs c k h = refl
  slice-write_after (x ∷ m) zero zero vs c k h = refl
  slice-write_after (x ∷ m) zero (suc l) [] c k h = refl
  slice-write_after (x ∷ m) zero (suc l) (v ∷ vs) zero k h = absurd (omega arith)
  slice-write_after (x ∷ m) zero (suc l) (v ∷ vs) (suc c) k h =
      slice-write_after m zero l vs c k (omega arith)
  slice-write_after (x ∷ m) (suc b) l vs zero k h = absurd (omega arith)
  slice-write_after (x ∷ m) (suc b) l vs (suc c) k h = slice-write_after m b l vs c k (omega arith)

  -- Consecutive slices of `c` entries make up one slice.
  pub flatten-slices :
      (m : List A) (c n i : ℕ)
      → flatten (tabulate n i (λ k. slice m (k * c) c)) ≡ slice m (i * c) (n * c)
  flatten-slices m c zero i =
      sym (slice_none m (i * c)) ∙ ap (slice m (i * c)) (let e : 0 ≡ 0 * c = omega arith in e)
  flatten-slices m c (suc n) i =
      ap (◌++◌ (slice m (i * c) c)) (flatten-slices m c n (suc i))
      ∙ ap (λ t. slice m (i * c) c ++ slice m t (n * c))
          (let e : suc i * c ≡ i * c + c = omega arith in e)
      ∙ sym (slice-slice_append m (i * c) c (n * c))
      ∙ ap (slice m (i * c)) (let e : c + n * c ≡ suc n * c = omega arith in e)

  -- Enough chunks of `c` entries make up the list.
  pub flatten-chunks :
      (m : List A) (c n : ℕ)
      → length m ≤ n * c
      → flatten (tabulate n 0 (λ k. slice m (k * c) c)) ≡ m
  flatten-chunks m c n h =
      flatten-slices m c n 0
      ∙ slice_at m {c = 0} {k = n * c} (omega arith) refl
      ∙ slice_all m (n * c) h
