-- ===== src/Guard/Exclusive.antt =====
-- src/cell/reference.rs: `MelinoeMut`, which the macro makes of `&'a mut T`.
use melinoe.Guard.{Reference}

pub record MelinoeMut (S T : Type 0) : Type 0 where
  pub value : Reference S T

module _ {S T : Type 0} where
  unfoldable pub new : Reference S T → MelinoeMut S T
  new value = record { value = value }

  unfoldable pub into_mut : MelinoeMut S T → Reference S T
  into_mut g = g.value

  -- `Deref`, and a write through `DerefMut`.
  unfoldable pub deref : MelinoeMut S T → S → T
  deref g s = g.value.read s

  unfoldable pub deref_mut : MelinoeMut S T → T → S → S
  deref_mut g v s = g.value.write v s

module _ {S T U : Type 0} where
  unfoldable pub map : MelinoeMut S T → (Reference S T → Reference S U) → MelinoeMut S U
  unfolding new
  map orig f = new (f orig.value)

module _ {S T U V : Type 0} where
  unfoldable pub map_split :
      MelinoeMut S T
      → (Reference S T → Reference S U × Reference S V)
      → MelinoeMut S U × MelinoeMut S V
  unfolding new
  map_split orig f = let (a, b) = f orig.value in (new a, new b)
