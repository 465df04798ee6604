-- ===== src/Token/Clear.antt =====
-- src/token: borrows of which no two conflict, in a list with a place for each.
use melinoe.Prelude.{
  ℕ, zero, suc, ◌==◌, ==_refl, ◌≡◌, ◌≢◌, refl, sym, ap, ap₂, ◌∙◌, Bool, true, false, not, ◌&&◌,
  ◌||◌, List, [], ◌∷◌, some, get_elem?, set, arith, some-inj,
}
use melinoe.Token.{Permit, writes, conflict, clear}
use melinoe.Token.World.{remove_at}

abbrev pub Apart : List Permit → Type 0
Apart [] = Unit {0}
Apart (p ∷ ps) = (clear p ps ≡ true) × Apart ps

-- The permissions of the two borrows are the same.
abbrev pub Alike : Permit → Permit → Type 0
Alike p r = (p.owner ≡ r.owner) × (writes p.mode ≡ writes r.mode)

pub &&-eq-true : (a b : Bool) → (a && b) ≡ true → (a ≡ true) × (b ≡ true)
&&-eq-true true b h = (refl, h)
&&-eq-true false b h = cc

pub not-eq-true : (a : Bool) → not a ≡ true → a ≡ false
not-eq-true true h = cc
not-eq-true false h = refl

||_comm : (a b : Bool) → (a || b) ≡ (b || a)
||_comm true true = refl
||_comm true false = refl
||_comm false true = refl
||_comm false false = refl

==_comm : (a b : ℕ) → (a == b) ≡ (b == a)
==_comm a b = ground arith

conflict_comm : (p q : Permit) → conflict p q ≡ conflict q p
conflict_comm p q = ap₂ ◌&&◌ (==_comm p.owner q.owner) (||_comm (writes p.mode) (writes q.mode))

pub clear-get :
    (p : Permit) (qs : List Permit) (j : ℕ) {q : Permit}
    → clear p qs ≡ true
    → get_elem? qs j ≡ some q
    → conflict p q ≡ false
clear-get p [] j c g = cc
clear-get p (r ∷ qs) zero c g =
    ap (conflict p) (sym (some-inj g)) ∙ not-eq-true _ (&&-eq-true _ _ c).0
clear-get p (r ∷ qs) (suc j) c g = clear-get p qs j (&&-eq-true _ _ c).1 g

clear-remove_at :
    (p : Permit) (qs : List Permit) (j : ℕ) → clear p qs ≡ true → clear p (remove_at j qs) ≡ true
clear-remove_at p [] j c = refl
clear-remove_at p (q ∷ qs) zero c = (&&-eq-true _ _ c).1
clear-remove_at p (q ∷ qs) (suc j) c =
    let (a, b) = &&-eq-true _ (clear p qs) c in ap₂ ◌&&◌ a (clear-remove_at p qs j b)

pub Apart-remove_at : (ps : List Permit) (j : ℕ) → Apart ps → Apart (remove_at j ps)
Apart-remove_at [] j a = tt
Apart-remove_at (p ∷ ps) zero a = a.1
Apart-remove_at (p ∷ ps) (suc j) a = (clear-remove_at p ps j a.0, Apart-remove_at ps j a.1)

pub Apart-get :
    (ps : List Permit) (i j : ℕ) {p q : Permit}
    → Apart ps
    → i ≢ j
    → get_elem? ps i ≡ some p
    → get_elem? ps j ≡ some q
    → conflict p q ≡ false
Apart-get [] i j a n f g = cc
Apart-get (r ∷ ps) zero zero a n f g = absurd (n refl)
Apart-get (r ∷ ps) zero (suc j) {q = q} a n f g =
    ap (λ s. conflict s q) (sym (some-inj f)) ∙ clear-get r ps j a.0 g
Apart-get (r ∷ ps) (suc i) zero {p = p} a n f g =
    ap (conflict p) (sym (some-inj g)) ∙ conflict_comm p r ∙ clear-get r ps i a.0 f
Apart-get (r ∷ ps) (suc i) (suc j) a n f g = Apart-get ps i j a.1 (λ e. n (ap suc e)) f g

pub clear-Alike : (p r : Permit) (qs : List Permit) → Alike p r → clear p qs ≡ clear r qs
clear-Alike p r [] l = refl
clear-Alike p r (q ∷ qs) l =
    λ i. not ((l.0 i == q.owner) && (l.1 i || writes q.mode)) && clear-Alike p r qs l i

clear-set :
    (q : Permit) (ps : List Permit) (j : ℕ) (p r : Permit)
    → get_elem? ps j ≡ some p
    → Alike p r
    → clear q (set ps j r) ≡ clear q ps
clear-set q [] j p r g l = refl
clear-set q (s ∷ ps) zero p r g l = sym (
    ap (λ t. not t && clear q ps)
      (ap (conflict q) (some-inj g) ∙ λ i. (q.owner == l.0 i) && (writes q.mode || l.1 i)))
clear-set q (s ∷ ps) (suc j) p r g l = ap (◌&&◌ (not (conflict q s))) (clear-set q ps j p r g l)

pub Apart-set :
    (ps : List Permit) (j : ℕ) (p r : Permit)
    → get_elem? ps j ≡ some p
    → Alike p r
    → Apart ps
    → Apart (set ps j r)
Apart-set [] j p r g l a = tt
Apart-set (s ∷ ps) zero p r g l a =
    (sym (ap (λ t. clear t ps) (some-inj g) ∙ clear-Alike p r ps l) ∙ a.0, a.1)
Apart-set (s ∷ ps) (suc j) p r g l a = (clear-set s ps j p r g l ∙ a.0, Apart-set ps j p r g l a.1)

conflict-reader : (p : Permit) → writes p.mode ≡ false → conflict p p ≡ false
conflict-reader p h = rw (h, ==_refl p.owner) refl

-- A reader may be had once more.
pub clear-again :
    (ps : List Permit) (j : ℕ) (p : Permit)
    → Apart ps
    → get_elem? ps j ≡ some p
    → writes p.mode ≡ false
    → clear p ps ≡ true
clear-again [] j p a g h = refl
clear-again (s ∷ ps) zero p a g h =
    let e = sym (some-inj g) in
    ap₂ (λ b c. not b && c) (ap (conflict p) (sym e) ∙ conflict-reader p h)
      (ap (λ t. clear t ps) e ∙ a.0)
clear-again (s ∷ ps) (suc j) p a g h =
    ap₂ (λ b c. not b && c) (conflict_comm p s ∙ clear-get s ps j a.0 g)
      (clear-again ps j p a.1 g h)
