-- ===== src/Guard/Shared.antt =====
-- src/cell/reference.rs: `MelinoeRef`, which the macro makes of `&'a T`.
pub record MelinoeRef (S T : Type 0) : Type 0 where
  pub value : S → T

module _ {S T : Type 0} where
  unfoldable pub new : (S → T) → MelinoeRef S T
  new value = record { value = value }

  unfoldable pub into_ref : MelinoeRef S T → S → T
  into_ref g = g.value

  -- `Deref`
  unfoldable pub deref : MelinoeRef S T → S → T
  deref g s = g.value s

module _ {S T U : Type 0} where
  unfoldable pub map : MelinoeRef S T → ((S → T) → S → U) → MelinoeRef S U
  unfolding new
  map orig f = new (f orig.value)

module _ {S T U V : Type 0} where
  unfoldable pub map_split :
      MelinoeRef S T → ((S → T) → (S → U) × (S → V)) → MelinoeRef S U × MelinoeRef S V
  unfolding new
  map_split orig f = let (a, b) = f orig.value in (new a, new b)
