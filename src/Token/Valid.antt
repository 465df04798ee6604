-- ===== src/Token/Valid.antt =====
-- src/token and src/cell: the invariant of tokens, loans and cells.
pub mod Permits
pub mod Views
pub mod Scopes
pub mod Steps
use mathlib.Core.Path.{subst}
use melinoe.Prelude.{
  ℕ, zero, suc, ◌+◌, ◌<◌, ◌≤◌, ◌==◌, ltb, leb, ==→eq, ◌≡◌, ◌≢◌, refl, sym, ap, ap₂, ◌∙◌, Bool, true,
  false, not, ◌&&◌, List, [], ◌∷◌, ◌++◌, map, Option, none, some, length, get_elem?, set, drop, inl,
  inr, arith, tests, some-inj, All, All-get, All-set, All-imp, get_elem?-lt, get_elem?-append,
  get_elem?-snoc, get_elem?-map, map-set, get_elem?-set_self, get_elem?-set_ne, length-set,
  length-append, Bool-cases, leb→le, ltb→lt, ◌-◌,
}
use melinoe.Token.{Family, share, sends, Token, Mode, by_shared, writes, Permit, clear}
use melinoe.Token.World.{
  MelinoeCell, Loan, held, view, permit_of, covers, remove_at, branded, World, empty, with_loans,
  with_cells, with_tokens, store,
}
use melinoe.Token.Clear.{Apart, Apart-remove_at, Apart-set, Alike, &&-eq-true}

-- The token at a place has the place's number for its brand.
abbrev pub Numbered : List Token → Type 0
Numbered ts = (i : ℕ) (t : Token) → get_elem? ts i ≡ some t → t.brand ≡ i

abbrev pub Owned : List Token → Permit → Type 0
Owned ts p = (p.owner < length ts) × (p.owner ≡ p.brand)

-- A borrow of a token that cannot leave its thread is on that thread, and is no `SharedReadToken`.
abbrev pub Stays : List Token → Permit → Type 0
Stays ts p =
    (t : Token)
    → get_elem? ts p.owner ≡ some t
    → sends t.family ≡ false
    → (p.thread ≡ t.thread) × (p.mode ≢ by_shared)

abbrev pub brand_at : {T : Type 0} → List (MelinoeCell T) → ℕ → Option ℕ
brand_at [] k = none
brand_at (c ∷ cs) zero = some c.brand
brand_at (c ∷ cs) (suc k) = brand_at cs k

abbrev pub Sound : {T : Type 0} → List Token → List (MelinoeCell T) → Loan → Type 0
Sound ts cs (held p) = Owned ts p × Stays ts p
Sound ts cs (view p exclusive start len) =
    Owned ts p
    × ((k : ℕ) → covers (view p exclusive start len) k ≡ true → brand_at cs k ≡ some p.brand)
    × (exclusive ≡ true → writes p.mode ≡ true)

pub record Valid {T : Type 0} (w : World T) : Type 0 where
  pub counted : w.next ≡ length w.tokens
  pub numbered : Numbered w.tokens
  pub apart : Apart (map permit_of w.loans)
  pub sound : All (Sound w.tokens w.cells) w.loans

map-remove_at :
    (ls : List Loan) (i : ℕ) → map permit_of (remove_at i ls) ≡ remove_at i (map permit_of ls)
map-remove_at [] i = refl
map-remove_at (l ∷ ls) zero = refl
map-remove_at (l ∷ ls) (suc i) = ap (◌∷◌ (permit_of l)) (map-remove_at ls i)

All-remove_at : (P : Loan → Type 0) (ls : List Loan) (i : ℕ) → All P ls → All P (remove_at i ls)
All-remove_at P [] i a = tt
All-remove_at P (l ∷ ls) zero a = a.1
All-remove_at P (l ∷ ls) (suc i) a = (a.0, All-remove_at P ls i a.1)

-- The tokens that stay on their thread are the same, as far as they were there.
abbrev pub KeepsTokens : List Token → List Token → Type 0
KeepsTokens ts us =
    (length ts ≤ length us)
    × ((i : ℕ) (t : Token)
        → i < length ts
        → get_elem? us i ≡ some t
        → sends t.family ≡ false
        → get_elem? ts i ≡ some t)

module _ {T : Type 0} where
  pub empty-Valid : Valid (empty T)
  empty-Valid = record { counted = refl; numbered = λ i t g. cc; apart = tt; sound = tt }

  -- A loan's permit is of the brand that its owner has.
  pub Owned-loan :
      (ts : List Token) (cs : List (MelinoeCell T)) (l : Loan)
      → Sound ts cs l
      → Owned ts (permit_of l)
  Owned-loan ts cs (held p) s = s.0
  Owned-loan ts cs (view p exclusive start len) s = s.0

  pub Valid-add :
      (w : World T) (p : Permit)
      → Valid w
      → clear p (map permit_of w.loans) ≡ true
      → Sound w.tokens w.cells (held p)
      → Valid (with_loans w (held p ∷ w.loans))
  Valid-add w p v c s = record {
    counted = v.counted;
    numbered = v.numbered;
    apart = (c, v.apart);
    sound = (s, v.sound);
  }

  pub Valid-put :
      (w : World T) (i : ℕ) (l r : Loan)
      → Valid w
      → get_elem? w.loans i ≡ some l
      → Alike (permit_of l) (permit_of r)
      → Sound w.tokens w.cells r
      → Valid (with_loans w (set w.loans i r))
  Valid-put w i l r v g k s = record {
    counted = v.counted;
    numbered = v.numbered;
    apart =
        subst Apart (sym (map-set permit_of w.loans i r))
          (Apart-set _ i (permit_of l) _ (get_elem?-map permit_of w.loans i g) k v.apart);
    sound = All-set _ w.loans i r v.sound s;
  }

  pub Valid-remove : (w : World T) (i : ℕ) → Valid w → Valid (with_loans w (remove_at i w.loans))
  Valid-remove w i v = record {
    counted = v.counted;
    numbered = v.numbered;
    apart = subst Apart (sym (map-remove_at w.loans i)) (Apart-remove_at _ i v.apart);
    sound = All-remove_at _ w.loans i v.sound;
  }

  -- The brands of the cells that are there do not change.
  abbrev pub KeepsBrands : List (MelinoeCell T) → List (MelinoeCell T) → Type 0
  KeepsBrands cs ds = (k b : ℕ) → brand_at cs k ≡ some b → brand_at ds k ≡ some b

  Sound-cells :
      (ts : List Token) (cs ds : List (MelinoeCell T)) (l : Loan)
      → KeepsBrands cs ds
      → Sound ts cs l
      → Sound ts ds l
  Sound-cells ts cs ds (held p) f s = s
  Sound-cells ts cs ds (view p exclusive start len) f s = (s.0, (λ k c. f k p.brand (s.1 k c)), s.2)

  pub Valid-cells :
      (w : World T) (cs : List (MelinoeCell T))
      → Valid w
      → KeepsBrands w.cells cs
      → Valid (with_cells w cs)
  Valid-cells w cs v f = record {
    counted = v.counted;
    numbered = v.numbered;
    apart = v.apart;
    sound =
        All-imp (Sound w.tokens w.cells) (Sound w.tokens cs) w.loans
          (λ l s. Sound-cells w.tokens w.cells cs l f s) v.sound;
  }

  pub KeepsBrands-store :
      (k : ℕ) (x : T) (cs : List (MelinoeCell T)) → KeepsBrands cs (store k x cs)
  KeepsBrands-store k x [] j b h = h
  KeepsBrands-store zero x (c ∷ cs) zero b h = h
  KeepsBrands-store zero x (c ∷ cs) (suc j) b h = h
  KeepsBrands-store (suc k) x (c ∷ cs) zero b h = h
  KeepsBrands-store (suc k) x (c ∷ cs) (suc j) b h = KeepsBrands-store k x cs j b h

  pub KeepsBrands-append : (cs ds : List (MelinoeCell T)) → KeepsBrands cs (cs ++ ds)
  KeepsBrands-append [] ds k b h = cc
  KeepsBrands-append (c ∷ cs) ds zero b h = h
  KeepsBrands-append (c ∷ cs) ds (suc k) b h = KeepsBrands-append cs ds k b h

  pub brand_at-get :
      (cs : List (MelinoeCell T)) (k : ℕ) {c : MelinoeCell T}
      → get_elem? cs k ≡ some c
      → brand_at cs k ≡ some c.brand
  brand_at-get [] k g = cc
  brand_at-get (d ∷ cs) zero g = ap (λ x. some x.brand) (some-inj g)
  brand_at-get (d ∷ cs) (suc k) g = brand_at-get cs k g

  brand_at-front :
      (b n k : ℕ) (cs : List (MelinoeCell T))
      → branded b n cs ≡ true
      → k < n
      → brand_at cs k ≡ some b
  brand_at-front b zero k cs h c = elim c [ ]
  brand_at-front b (suc n) k [] h c = cc
  brand_at-front b (suc n) zero (d ∷ cs) h c = ap some (==→eq _ _ (&&-eq-true _ _ h).0)
  brand_at-front b (suc n) (suc k) (d ∷ cs) h c =
      brand_at-front b n k cs (&&-eq-true _ _ h).1 (omega arith)

  brand_at-drop :
      (b n s k : ℕ) (cs : List (MelinoeCell T))
      → branded b n (drop s cs) ≡ true
      → s ≤ k
      → k < s + n
      → brand_at cs k ≡ some b
  brand_at-drop b n zero k cs h l c = brand_at-front b n k cs h (omega arith)
  brand_at-drop b n (suc s) zero cs h l c = absurd (omega arith)
  brand_at-drop b n (suc s) (suc k) [] h l c = brand_at-front b n (k - s) [] h (omega arith)
  brand_at-drop b n (suc s) (suc k) (d ∷ cs) h l c =
      brand_at-drop b n s k cs h (omega arith) (omega arith)

  -- A slice that the type of a view says has the brand has it at each of its cells.
  pub brand_at-branded :
      (b n s k : ℕ) (cs : List (MelinoeCell T))
      → branded b n (drop s cs) ≡ true
      → (leb s k && ltb k (s + n)) ≡ true
      → brand_at cs k ≡ some b
  brand_at-branded b n s k cs h c =
      let (p, q) = &&-eq-true (leb s k) (ltb k (s + n)) c in
      brand_at-drop b n s k cs h (leb→le s k p) (ltb→lt k (s + n) q)

  Sound-tokens :
      (ts us : List Token) (cs : List (MelinoeCell T)) (l : Loan)
      → KeepsTokens ts us
      → Sound ts cs l
      → Sound us cs l
  Sound-tokens ts us cs (held p) f s =
      ((omega (arith, s.0.0, f.0), s.0.1), λ t g h. s.1 t (f.1 p.owner t s.0.0 g h) h)
  Sound-tokens ts us cs (view p exclusive start len) f s =
      ((omega (arith, s.0.0, f.0), s.0.1), s.1, s.2)

  pub Sound-All :
      (w : World T) (us : List Token)
      → KeepsTokens w.tokens us
      → All (Sound w.tokens w.cells) w.loans
      → All (Sound us w.cells) w.loans
  Sound-All w us f s =
      All-imp (Sound w.tokens w.cells) (Sound us w.cells) w.loans
        (λ l p. Sound-tokens w.tokens us w.cells l f p) s
