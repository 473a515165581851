-- ===== src/Prelude/Members.antt =====
-- Membership and its lemmas on the list functions of the model.
use mathlib.Core.Path.{◌≡◌, refl, ap, ◌∙◌, sym, subst}
use mathlib.Core.Logic.{inl, inr}
use mathlib.Core.Bool.{Bool, true}
use mathlib.Core.Option.{some, some_inj}
use Prim.Native.String.{String}
use text.Mathlib.TextEquality.{eq_iff}
use text.Mathlib.Text.{◌==◌ as str_eq}
use native.Mathlib.Omega.{arith}
use mathlib.Core.List.{List, [], ◌∷◌, Memᴰ}
use mathlib.Core.List.Memᴰ
use ledger_daemon.Prelude.Tests.{Bool-cases}
use ledger_daemon.Prelude.Lists.{keep, All}
use ledger_daemon.Prelude.Dict.{Dict, lookup}

module _ {ℓ} {A : Type ℓ} where
  pub All-Memᴰ {κ} : (P : A → Type κ) (x : A) (xs : List A) → All P xs → Memᴰ x xs → P x
  All-Memᴰ P x [] h m = absurd (Memᴰ.not-nil m)
  All-Memᴰ P x (y ∷ ys) (h, hs) m = elim (Memᴰ.cases_cons m) [
    | inl e ↦ subst P (sym e) h
    | inr rest ↦ All-Memᴰ P x ys hs rest
  ]

  pub All-intro {κ} : (P : A → Type κ) (xs : List A) → ((x : A) → Memᴰ x xs → P x) → All P xs
  All-intro P [] h = tt
  All-intro P (x ∷ xs) h = (h x (Memᴰ.head refl), All-intro P xs (λ y m. h y (Memᴰ.tail m)))

  pub Memᴰ-keep :
      (p : A → Bool) (x : A) (xs : List A) → Memᴰ x (keep p xs) → Memᴰ x xs × (p x ≡ true)
  Memᴰ-keep p x [] m = absurd (Memᴰ.not-nil m)
  Memᴰ-keep p x (y ∷ ys) m = elim (Bool-cases (p y)) [
    | inl holds ↦ elim (Memᴰ.cases_cons (rw holds at m)) [
      | inl e ↦ (Memᴰ.head e, subst (λ z. p z ≡ true) (sym e) holds)
      | inr rest ↦ let (there, found) = Memᴰ-keep p x ys rest in (Memᴰ.tail there, found)
    ]
    | inr fails ↦ let (there, found) = Memᴰ-keep p x ys (rw fails at m) in (Memᴰ.tail there, found)
  ]

  pub Memᴰ-keep_intro :
      (p : A → Bool) (x : A) (xs : List A) → Memᴰ x xs → (p x ≡ true) → Memᴰ x (keep p xs)
  Memᴰ-keep_intro p x [] m h = absurd (Memᴰ.not-nil m)
  Memᴰ-keep_intro p x (y ∷ ys) m h = elim (Memᴰ.cases_cons m) [
    | inl e ↦ rw (sym e, h) (Memᴰ.head refl)
    | inr rest ↦ elim (Bool-cases (p y)) [
      | inl holds ↦ rw holds (Memᴰ.tail (Memᴰ-keep_intro p x ys rest h))
      | inr fails ↦ rw fails (Memᴰ-keep_intro p x ys rest h)
    ]
  ]

  pub Memᴰ-lookup : (k : String) (v : A) (d : Dict A) → (lookup k d ≡ some v) → Memᴰ (k, v) d
  unfolding lookup
  Memᴰ-lookup k v [] h = ground arith
  Memᴰ-lookup k v ((j, w) ∷ d) h = elim (Bool-cases (str_eq j k)) [
    | inl same ↦ Memᴰ.head (
        ap (λ i. (i, v)) (sym ((eq_iff j k).0 same))
        ∙ ap (λ x. (j, x)) (sym (some_inj.0 (rw same at h))))
    | inr differs ↦ Memᴰ.tail (Memᴰ-lookup k v d (rw differs at h))
  ]
