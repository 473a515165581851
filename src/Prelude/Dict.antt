-- ===== src/Prelude/Dict.antt =====
-- Python's `dict` with text keys, as an association list in insertion order.
use Prim.Native.String.{String}
use mathlib.Core.Path.{◌≡◌, refl, sym, subst}
use mathlib.Core.Logic.{◌≢◌, inl, inr}
use text.Mathlib.TextPositions.{eq_refl}
use mathlib.Core.Option.{Option, none, some, some_inj}
use mathlib.Core.List.{List, [], ◌∷◌, ◌++◌}
use native.Mathlib.Omega.{arith}
use text.Mathlib.Text.{◌==◌ as str_eq}
use text.Mathlib.TextEquality.{eq_iff}
use ledger_daemon.Prelude.Tests.{Bool-cases, if◌then◌else◌}
use ledger_daemon.Prelude.Lists.{All}

abbrev pub Dict {ℓ} : Type ℓ → Type ℓ
Dict V = List (String × V)

module _ {ℓ} {V : Type ℓ} where
  -- `d.get(k)`
  unfoldable pub lookup : String → Dict V → Option V
  lookup k [] = none
  lookup k ((j, v) ∷ d) = if str_eq j k then some v else lookup k d

  -- `d[k] = v`
  unfoldable pub insert : String → V → Dict V → Dict V
  insert k v [] = (k, v) ∷ []
  insert k v ((j, w) ∷ d) = if str_eq j k then (j, v) ∷ d else (j, w) ∷ insert k v d

  pub lookup-insert :
      (k j : String) (v : V) (d : Dict V)
      → lookup j (insert k v d) ≡ (if str_eq k j then some v else lookup j d)
  unfolding lookup insert
  lookup-insert k j v [] = refl
  lookup-insert k j v ((i, w) ∷ d) =
      ground (arith, eq_iff k j, eq_iff i k, eq_iff i j, lookup-insert k j v d)

  pub lookup-insert_self : (k : String) (v : V) (d : Dict V) → lookup k (insert k v d) ≡ some v
  lookup-insert_self k v d = simp (lookup-insert, eq_refl)

  pub lookup-insert_ne :
      (k j : String) (v : V) (d : Dict V) → k ≢ j → lookup j (insert k v d) ≡ lookup j d
  lookup-insert_ne k j v d ne = ground (arith, lookup-insert k j v d, eq_iff k j)

module _ {ℓ} {V : Type ℓ} where
  -- `d.setdefault(k, []).append(v)`
  unfoldable pub append_at : String → V → Dict (List V) → Dict (List V)
  append_at k v [] = (k, v ∷ []) ∷ []
  append_at k v ((j, vs) ∷ d) =
      if str_eq j k then (j, vs ++ v ∷ []) ∷ d else (j, vs) ∷ append_at k v d

module _ {ℓ κ} {V : Type ℓ} (P : String → V → Type κ) where
  abbrev pub AllEntries : Dict V → Type κ
  AllEntries = All (λ (e : String × V). P e.0 e.1)

  pub AllEntries-lookup :
      (k : String) (v : V) (d : Dict V) → AllEntries d → (lookup k d ≡ some v) → P k v
  unfolding lookup
  AllEntries-lookup k v [] h e = ground arith
  AllEntries-lookup k v ((j, w) ∷ d) (h, hs) e = elim (Bool-cases (str_eq j k)) [
    | inl same ↦
        subst (λ i. P i v) ((eq_iff j k).0 same) (subst (P j) (some_inj.0 (rw same at e)) h)
    | inr differs ↦ AllEntries-lookup k v d hs (rw differs at e)
  ]

  pub AllEntries-insert :
      (k : String) (v : V) (d : Dict V) → AllEntries d → P k v → AllEntries (insert k v d)
  unfolding insert
  AllEntries-insert k v [] h p = (p, tt)
  AllEntries-insert k v ((j, w) ∷ d) (h, hs) p = elim (Bool-cases (str_eq j k)) [
    | inl same ↦ rw same (subst (λ i. P i v) (sym ((eq_iff j k).0 same)) p, hs)
    | inr differs ↦ rw differs (h, AllEntries-insert k v d hs p)
  ]
