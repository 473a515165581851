-- ===== src/Grouping.antt =====
-- `d.setdefault(key, []).append(x)` for every member of a list whose key is not empty: how
-- ledger_daemon/recon.py collects captures by settlement and credits by reference.
use mathlib.Core.List.{append-nil, append_assoc}
use ledger_daemon.Distinct.{AreDistinct}
use ledger_daemon.Prelude.{
  ◌≡◌, ◌≢◌, refl, sym, ap, ◌∙◌, inl, inr, String, Bool, Option, none, some, List, [], ◌∷◌, ◌++◌,
  map, keep, All, arith, str_eq, eq_iff, Bool-cases, if◌then◌else◌,
}
use ledger_daemon.Prelude.Dict.{Dict, lookup, append_at}

-- `d.get(k, [])`.
abbrev pub or_empty {ℓ} : {A : Type ℓ} → Option (List A) → List A
or_empty none = []
or_empty (some xs) = xs

module _ {ℓ} {A : Type ℓ} (key : A → String) where
  unfoldable pub group_from : Dict (List A) → List A → Dict (List A)
  group_from d [] = d
  group_from d (x ∷ xs) = group_from (if str_eq (key x) "" then d else append_at (key x) x d) xs

  unfoldable pub group_by : List A → Dict (List A)
  unfolding group_from
  group_by = group_from []

  -- The members of one group.
  abbrev pub of_key : String → List A → List A
  of_key k = keep (λ x. str_eq (key x) k)

lookup-append_at {ℓ} :
    {V : Type ℓ} (k j : String) (v : V) (d : Dict (List V))
    → lookup j (append_at k v d)
      ≡ (if str_eq k j then some (or_empty (lookup j d) ++ v ∷ []) else lookup j d)
unfolding lookup append_at
lookup-append_at k j v [] = refl
lookup-append_at k j v ((i, vs) ∷ d) =
    ground (arith, eq_iff k j, eq_iff i k, eq_iff i j, lookup-append_at k j v d)

keep-snoc {ℓ} :
    {A : Type ℓ} (p : A → Bool) (xs : List A) (x : A)
    → keep p (xs ++ x ∷ []) ≡ (if p x then keep p xs ++ x ∷ [] else keep p xs)
keep-snoc p [] x = refl
keep-snoc p (y ∷ ys) x = elim (Bool-cases (p y)) [
  | inl h ↦ elim (Bool-cases (p x)) [
    | inl k ↦ rw (h, k, keep-snoc p ys x, k)
    | inr k ↦ rw (h, k, keep-snoc p ys x, k)
  ]
  | inr h ↦ rw (h, keep-snoc p ys x)
]

module _ {ℓ} {A : Type ℓ} (key : A → String) where
  step-lookup :
      (xs : List A) (x : A) (d : Dict (List A)) (k : String)
      → k ≢ ""
      → (or_empty (lookup k d) ≡ of_key key k xs)
      → or_empty (lookup k (if str_eq (key x) "" then d else append_at (key x) x d))
        ≡ of_key key k (xs ++ x ∷ [])
  step-lookup xs x d k ne h = elim (Bool-cases (str_eq (key x) "")) [
    | inl e ↦ elim (Bool-cases (str_eq (key x) k)) [
      | inl m ↦ absurd (ground (arith, eq_iff (key x) "", eq_iff (key x) k))
      | inr m ↦ rw (e, keep-snoc, m, h)
    ]
    | inr e ↦ elim (Bool-cases (str_eq (key x) k)) [
      | inl m ↦ rw (e, keep-snoc, m, lookup-append_at, m, h)
      | inr m ↦ rw (e, keep-snoc, m, lookup-append_at, m, h)
    ]
  ]

  lookup-group_from :
      (xs ys : List A) (d : Dict (List A)) (k : String)
      → k ≢ ""
      → (or_empty (lookup k d) ≡ of_key key k xs)
      → or_empty (lookup k (group_from key d ys)) ≡ of_key key k (xs ++ ys)
  unfolding group_from
  lookup-group_from xs [] d k ne h = rw append-nil h
  lookup-group_from xs (y ∷ ys) d k ne h =
      rw (sym (append_assoc xs (y ∷ []) ys))
        (lookup-group_from (xs ++ y ∷ []) ys _ k ne (step-lookup xs y d k ne h))

  -- The group of a key has every member with that key, in order.
  pub lookup-group_by :
      (xs : List A) (k : String) → k ≢ "" → or_empty (lookup k (group_by key xs)) ≡ of_key key k xs
  unfolding group_by lookup
  lookup-group_by xs k ne = lookup-group_from [] xs [] k ne refl

keys {ℓ} : {V : Type ℓ} → Dict V → List String
keys d = map (λ e. e.0) d

module _ {ℓ} {V : Type ℓ} where
  All-append_at :
      (P : String → Type 0) (k : String) (v : V) (d : Dict (List V))
      → P k
      → All P (keys d)
      → All P (keys (append_at k v d))
  unfolding append_at keys
  All-append_at P k v [] p h = (p, tt)
  All-append_at P k v ((j, vs) ∷ d) p (hj, hs) = elim (Bool-cases (str_eq j k)) [
    | inl e ↦ rw e (hj, hs)
    | inr e ↦ rw e (hj, All-append_at P k v d p hs)
  ]

  append_at-AreDistinct :
      (k : String) (v : V) (d : Dict (List V))
      → AreDistinct (keys d)
      → AreDistinct (keys (append_at k v d))
  unfolding append_at keys
  append_at-AreDistinct k v [] h = (tt, tt)
  append_at-AreDistinct k v ((j, vs) ∷ d) (hj, hs) = elim (Bool-cases (str_eq j k)) [
    | inl e ↦ rw e (hj, hs)
    | inr e ↦ rw e (
      All-append_at (λ i. j ≢ i) k v d (ground (arith, eq_iff j k)) hj,
      append_at-AreDistinct k v d hs,
    )
  ]

  past :
      (k : String) (v : V) (d entries : Dict V)
      → All (λ j. k ≢ j) (keys entries)
      → All (λ (e : String × V). lookup e.0 d ≡ some e.1) entries
      → All (λ (e : String × V). lookup e.0 ((k, v) ∷ d) ≡ some e.1) entries
  unfolding keys lookup
  past k v d [] ne h = tt
  past k v d ((j, w) ∷ entries) (ne, nes) (h, hs) =
      (ground (arith, eq_iff k j), past k v d entries nes hs)

  -- Every entry of a dictionary is the one found under its key.
  entries-lookup :
      (d : Dict V) → AreDistinct (keys d) → All (λ (e : String × V). lookup e.0 d ≡ some e.1) d
  unfolding keys lookup
  entries-lookup [] h = tt
  entries-lookup ((k, v) ∷ d) (hk, hs) =
      (ground (arith, eq_iff k k), past k v d d hk (entries-lookup d hs))

module _ {ℓ} {A : Type ℓ} (key : A → String) where
  group_from-keys :
      (d : Dict (List A)) (ys : List A)
      → AreDistinct (keys d)
      → All (λ j. j ≢ "") (keys d)
      → AreDistinct (keys (group_from key d ys)) × All (λ j. j ≢ "") (keys (group_from key d ys))
  unfolding group_from
  group_from-keys d [] h ne = (h, ne)
  group_from-keys d (y ∷ ys) h ne = elim (Bool-cases (str_eq (key y) "")) [
    | inl e ↦ rw e (group_from-keys d ys h ne)
    | inr e ↦ rw e (
        group_from-keys (append_at (key y) y d) ys (append_at-AreDistinct (key y) y d h)
          (All-append_at (λ j. j ≢ "") (key y) y d (ground (arith, eq_iff (key y) "")) ne))
  ]

  whole :
      (xs : List A) (d entries : Dict (List A))
      → ((k : String) → k ≢ "" → or_empty (lookup k d) ≡ of_key key k xs)
      → All (λ j. j ≢ "") (keys entries)
      → All (λ (e : String × List A). lookup e.0 d ≡ some e.1) entries
      → All (λ (e : String × List A). (e.0 ≢ "") × (e.1 ≡ of_key key e.0 xs)) entries
  unfolding keys
  whole xs d [] full ne h = tt
  whole xs d ((k, v) ∷ entries) full (ne, nes) (h, hs) =
      ((ne, ap or_empty (sym h) ∙ full k ne), whole xs d entries full nes hs)

  -- Every entry of the dictionary has a key that is not empty, and holds all the members with
  -- it, in order.
  pub group_by-entries :
      (xs : List A)
      → All (λ (e : String × List A). (e.0 ≢ "") × (e.1 ≡ of_key key e.0 xs)) (group_by key xs)
  unfolding keys group_by
  group_by-entries xs =
      let (distinct, ne) = group_from-keys [] xs tt tt in
      whole xs _ _ (lookup-group_by key xs) ne (entries-lookup _ distinct)
