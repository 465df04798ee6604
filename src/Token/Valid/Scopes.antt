-- ===== src/Token/Valid/Scopes.antt =====
-- src/token/brand.rs and src/sync/tokens: a token's scope, and its move to another thread, and the
-- invariant of tokens, loans and cells.
use mathlib.Core.Path.{subst}
use melinoe.Prelude.{
  ℕ, suc, ◌≤◌, ◌==◌, ==→eq, ==→ne, ◌≡◌, sym, ap, ◌∙◌, List, [], ◌∷◌, ◌++◌, some, length, get_elem?,
  set, inl, inr, arith, some-inj, get_elem?-lt, get_elem?-append, get_elem?-snoc,
  get_elem?-set_self, get_elem?-set_ne, length-set, length-append, Bool-cases, >>=-eq-some,
  guard-eq-some,
}
use melinoe.Token.{Family, sends, Token, mint}
use melinoe.Token.World.{at_thread, World, send_token}
use melinoe.Token.Clear.{&&-eq-true}
use melinoe.Token.Valid.{Valid, KeepsTokens, Sound-All}
use melinoe.Token.Valid.Permits.{Bool-apart}

no_fewer : (ts : List Token) (i : ℕ) (t : Token) → length ts ≤ length (set ts i t)
no_fewer ts i t = omega (arith, length-set ts i t)

module _ {T : Type 0} where
  pub send_token-Valid :
      (i thread : ℕ) (w : World T) {u : World T}
      → Valid w
      → send_token i thread w ≡ some u
      → Valid u
  unfolding send_token
  send_token-Valid i thread w v h =
      let (t, g, h1) = >>=-eq-some _ _ h in
      let (c, e) = guard-eq-some _ _ h1 in
      let here = get_elem?-set_self w.tokens i (at_thread thread t) (get_elem?-lt w.tokens i g) in
      let us = set w.tokens i (at_thread thread t) in
      let keeps : KeepsTokens w.tokens us = (
        no_fewer w.tokens i (at_thread thread t),
        λ j r lt f s. elim (Bool-cases (i == j)) [
          | inl q ↦ absurd (
              Bool-apart (
                sym (&&-eq-true (sends t.family) _ c).0
                ∙ ap (λ a. sends a.family)
                    (some-inj (sym here ∙ ap (get_elem? us) (==→eq i j q) ∙ f))
                ∙ s))
          | inr q ↦ sym (get_elem?-set_ne w.tokens i j _ (==→ne i j q)) ∙ f
        ],
      ) in
      subst Valid (some-inj e) (record {
        counted = v.counted ∙ sym (length-set w.tokens i _);
        numbered = λ j r f. elim (Bool-cases (i == j)) [
          | inl q ↦
              ap (λ a. a.brand) (sym (some-inj (sym here ∙ ap (get_elem? us) (==→eq i j q) ∙ f)))
              ∙ v.numbered i t g
              ∙ ==→eq i j q
          | inr q ↦ v.numbered j r (sym (get_elem?-set_ne w.tokens i j _ (==→ne i j q)) ∙ f)
        ];
        apart = v.apart;
        sound = Sound-All w us keeps v.sound;
      })

  -- A scope's token is new, and so is its brand.
  pub mint-Valid :
      (f : Family) (thread : ℕ) (w : World T)
      → Valid w
      → Valid (record {
        next = suc w.next;
        tokens = w.tokens ++ (mint f thread w.next ∷ []);
        loans = w.loans;
        cells = w.cells;
      })
  unfolding mint
  mint-Valid f thread w v =
      let us = w.tokens ++ (mint f thread w.next ∷ []) in
      record {
        counted = omega (arith, v.counted, length-append w.tokens (mint f thread w.next ∷ []));
        numbered = λ i t g. elim (get_elem?-snoc w.tokens _ i g) [
          | inl q ↦ v.numbered i t q
          | inr q ↦ ap (λ a. a.brand) (sym q.1) ∙ v.counted ∙ sym q.0
        ];
        apart = v.apart;
        sound =
            Sound-All w us
              (
                omega (arith, length-append w.tokens (mint f thread w.next ∷ [])),
                λ i t lt g s. sym (get_elem?-append w.tokens _ i lt) ∙ g,
              )
              v.sound;
      }
