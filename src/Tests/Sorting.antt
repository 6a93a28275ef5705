-- ===== src/Tests/Sorting.antt =====
-- An insertion sort that stands for the package sort in the runs of the wallets.
use covenant_signer.Prelude.{
  ◌≡◌, Bool, true, false, Bool-cases, inl, inr, if◌then◌else◌, List, [], ◌∷◌,
}
use mathlib.Core.List.{Perm}
use mathlib.Core.List.Perm
use covenant_signer.BtcClient.Wallet.Laws.{IsLess, IsReverseSorted}

module _ {A : Type 0} (less : A → A → Bool) where
  unfoldable pub insert : A → List A → List A
  insert a [] = a ∷ []
  insert a (b ∷ bs) = let rest = insert a bs in if less a b then b ∷ rest else (a ∷ b ∷ bs)

  unfoldable pub sort_reverse : List A → List A
  sort_reverse [] = []
  sort_reverse (a ∷ xs) = insert a (sort_reverse xs)

  insert-Perm : (a : A) (bs : List A) → Perm (insert a bs) (a ∷ bs)
  unfolding insert
  insert-Perm a [] = Perm.rfl
  insert-Perm a (b ∷ bs) = elim (Bool-cases (less a b)) [
    | inl h ↦ rw (h) (Perm.trans (Perm.cons b (insert-Perm a bs)) (Perm.swap a b bs))
    | inr h ↦ rw (h) Perm.rfl
  ]

  pub sort_reverse-Perm : (xs : List A) → Perm (sort_reverse xs) xs
  unfolding sort_reverse
  sort_reverse-Perm [] = Perm.rfl
  sort_reverse-Perm (a ∷ xs) =
      Perm.trans (insert-Perm a (sort_reverse xs)) (Perm.cons a (sort_reverse-Perm xs))

  module _ (laws : IsLess less) where
    asym : (a b : A) → less a b ≡ true → less b a ≡ false
    asym a b h = elim (Bool-cases (less b a)) [
      | inl k ↦ cc (laws.both a b a h k, laws.irreflexive a)
      | inr k ↦ k
    ]

    insert-behind :
        (a b : A) (bs : List A)
        → less b a ≡ false
        → IsReverseSorted less (b ∷ bs)
        → IsReverseSorted less (b ∷ insert a bs)
    unfolding insert
    insert-behind a b [] h s = (h, tt)
    insert-behind a b (c ∷ cs) h (here, s) = elim (Bool-cases (less a c)) [
      | inl k ↦ rw (k) (here, insert-behind a c cs (asym a c k) s)
      | inr k ↦ rw (k) (h, (k, s))
    ]

    insert-IsReverseSorted :
        (a : A) (bs : List A) → IsReverseSorted less bs → IsReverseSorted less (insert a bs)
    unfolding insert
    insert-IsReverseSorted a [] s = tt
    insert-IsReverseSorted a (b ∷ bs) s = elim (Bool-cases (less a b)) [
      | inl k ↦ rw (k) (insert-behind a b bs (asym a b k) s)
      | inr k ↦ rw (k) (k, s)
    ]

    pub sort_reverse-IsReverseSorted : (xs : List A) → IsReverseSorted less (sort_reverse xs)
    unfolding sort_reverse
    sort_reverse-IsReverseSorted [] = tt
    sort_reverse-IsReverseSorted (a ∷ xs) =
        insert-IsReverseSorted a (sort_reverse xs) (sort_reverse-IsReverseSorted xs)
