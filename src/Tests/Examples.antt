-- ===== src/Tests/Examples.antt =====
-- examples: the programs of the book, run, and the probes for the generated code.
use melinoe.Prelude.{ℕ, ◌-◌, ◌^◌, ◌≡◌, refl, some}
use melinoe.Examples.BrandedCell.{main}
use melinoe.Examples.ConditionalAtomics as Conditional
use melinoe.Reentrant.{new}
use melinoe.Examples.Codegen.{guarded_get_mut}

branded_cell_run : main ≡ some tt
unfolding main
branded_cell_run = refl

conditional_atomics_run : Conditional.main {P = ℕ} 0 ≡ some tt
unfolding Conditional.main
conditional_atomics_run = refl

guarded_get_mut_run : (guarded_get_mut (new (2 ^ 64 - 1))).0 ≡ 0
unfolding guarded_get_mut new
guarded_get_mut_run = refl
