-- ===== src/Prelude/Members.antt =====
-- Between `All`, which computes, and the library's `Mem` and `Perm`, which are propositions.
use mathlib.Core.Path.{subst, sym}
use mathlib.Core.Logic.Or
use mathlib.Core.List.{
  List, [], ◌∷◌, Mem, Perm, mem-cons, mem-cons_self, mem-cons_of_mem, not-mem-nil,
}
use mathlib.Core.List.Perm
use quiz.Prelude.Lists.{All}

module _ {ℓ κ} {A : Type ℓ} (P : A → Type κ) where
  pub All-of_mem : (xs : List A) → ((a : A) → Mem a xs → P a) → All P xs
  All-of_mem [] f = tt
  All-of_mem (x ∷ xs) f = (f x mem-cons_self, All-of_mem xs (λ a h. f a (mem-cons_of_mem x h)))

  pub All-mem : ((a : A) → IsProp (P a)) → (xs : List A) (a : A) → All P xs → Mem a xs → P a
  All-mem p [] a h m = absurd (not-mem-nil m)
  All-mem p (x ∷ xs) a h m =
      Or.elim (p a) (mem-cons.0 m) (λ e. subst P (sym e) h.0) (All-mem p xs a h.1)

  -- The order of a list does not matter to what holds of all its entries.
  pub All-perm : ((a : A) → IsProp (P a)) → {xs ys : List A} → Perm xs ys → All P xs → All P ys
  All-perm p {xs} {ys} q h = All-of_mem ys (λ a m. All-mem p xs a h ((Perm.mem_iff q).1 m))
