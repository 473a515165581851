-- ===== src/Recon/Assign/Product.antt =====
-- ledger_daemon/recon.py, `_assign_component`: what `itertools.product` enumerates.
use mathlib.Core.Path.{subst}
use mathlib.Core.List.{Memᴰ}
use mathlib.Core.List.Memᴰ
use ledger_daemon.Prelude.{◌≡◌, refl, sym, inl, inr, List, [], ◌∷◌, map}
use ledger_daemon.Recon.Assign.{prefix_all, product}

-- A choice takes a member of each list.
pub data IsChoice {ℓ} {A : Type ℓ} : List (List A) → List A → Type ℓ where
  done : IsChoice [] []
  take :
      {xs : List A} {xss : List (List A)} (c : A) (cs : List A)
      → Memᴰ c xs
      → IsChoice xss cs
      → IsChoice (xs ∷ xss) (c ∷ cs)

module _ {ℓ} {A : Type ℓ} where
  prefix_all-Memᴰ :
      (c : A) (cs : List A) (xs : List A) (rest : List (List A))
      → Memᴰ c xs
      → Memᴰ cs rest
      → Memᴰ (c ∷ cs) (prefix_all xs rest)
  prefix_all-Memᴰ c cs [] rest m tails = absurd (Memᴰ.not-nil m)
  prefix_all-Memᴰ c cs (x ∷ xs) rest m tails = elim (Memᴰ.cases_cons m) [
    | inl e ↦
        Memᴰ.append_left (prefix_all xs rest)
          (subst (λ y. Memᴰ (c ∷ cs) (map (λ l. y ∷ l) rest)) e (Memᴰ.map (λ l. c ∷ l) tails))
    | inr later ↦
        Memᴰ.append_right (map (λ l. x ∷ l) rest) (prefix_all-Memᴰ c cs xs rest later tails)
  ]

  Starts : List A → List (List A) → List A → Type ℓ
  Starts xs rest l = (c : A) × (cs : List A) × (l ≡ c ∷ cs) × Memᴰ c xs × Memᴰ cs rest

  prefix_all-Starts :
      (l : List A) (xs : List A) (rest : List (List A))
      → Memᴰ l (prefix_all xs rest)
      → Starts xs rest l
  unfolding Starts
  prefix_all-Starts l [] rest m = absurd (Memᴰ.not-nil m)
  prefix_all-Starts l (x ∷ xs) rest m = elim (Memᴰ.append_cases (map (λ cs. x ∷ cs) rest) m) [
    | inl first ↦
        let (cs, inside, e) = Memᴰ.of_map (λ cs. x ∷ cs) rest first in
        (x, cs, sym e, Memᴰ.head refl, inside)
    | inr later ↦
        let (c, cs, e, member, inside) = prefix_all-Starts l xs rest later in
        (c, cs, e, Memᴰ.tail member, inside)
  ]

  -- The product has every choice.
  pub IsChoice-product : (xss : List (List A)) (l : List A) → IsChoice xss l → Memᴰ l (product xss)
  unfolding product
  IsChoice-product [] l IsChoice.done = Memᴰ.head refl
  IsChoice-product (xs ∷ xss) l (IsChoice.take c cs m h) =
      prefix_all-Memᴰ c cs xs (product xss) m (IsChoice-product xss cs h)

  -- And nothing else.
  pub product-IsChoice : (xss : List (List A)) (l : List A) → Memᴰ l (product xss) → IsChoice xss l
  unfolding product Starts
  product-IsChoice [] l m = subst (IsChoice []) (sym (Memᴰ.eq_of_singleton m)) IsChoice.done
  product-IsChoice (xs ∷ xss) l m =
      let (c, cs, e, member, inside) = prefix_all-Starts l xs (product xss) m in
      subst (IsChoice (xs ∷ xss)) (sym e)
        (IsChoice.take c cs member (product-IsChoice xss cs inside))
