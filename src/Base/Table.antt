-- ===== src/Base/Table.antt =====
-- Go maps keyed by indices, as association lists in which a key stands at most once after `insert`.
use tdrive_aliyunpan.Base.{
  ℕ, ◌≡◌, refl, ◌∙◌, Bool, true, false, All, Bool-cases, inl, inr, List, [], ◌∷◌, Option, none,
  some, ◌==◌, arith, if◌then◌else◌,
}

module _ {V : Type 0} where
  unfoldable pub lookup : ℕ → List (ℕ × V) → Option V
  lookup k [] = none
  lookup k ((j, v) ∷ m) = if j == k then some v else lookup k m

  unfoldable pub insert : ℕ → V → List (ℕ × V) → List (ℕ × V)
  insert k v [] = (k, v) ∷ []
  insert k v ((j, w) ∷ m) = if j == k then (k, v) ∷ m else (j, w) ∷ insert k v m

  unfoldable pub delete : ℕ → List (ℕ × V) → List (ℕ × V)
  delete k [] = []
  delete k ((j, w) ∷ m) = let rest = delete k m in if j == k then rest else (j, w) ∷ rest

  pub lookup-insert :
      (index other : ℕ) (value : V) (table : List (ℕ × V))
      → lookup other (insert index value table)
        ≡ (if index == other then some value else lookup other table)
  unfolding lookup insert
  lookup-insert index other value [] = refl
  lookup-insert index other value ((key, held) ∷ table) = elim (Bool-cases (key == index)) [
    | inl e ↦ ground (arith, e)
    | inr e ↦ ground (arith, e, lookup-insert index other value table)
  ]

  pub lookup-delete :
      (k j : ℕ) (m : List (ℕ × V)) → lookup j (delete k m) ≡ (if k == j then none else lookup j m)
  unfolding lookup delete
  lookup-delete k j [] = ground arith
  lookup-delete k j ((i, w) ∷ m) = ground (arith, lookup-delete k j m)

  -- No key stands twice.
  abbrev pub IsKeyed : List (ℕ × V) → Type 0
  IsKeyed [] = Unit
  IsKeyed ((k, v) ∷ m) = (lookup k m ≡ none) × IsKeyed m

  insert-none :
      (k j : ℕ) (v : V) (m : List (ℕ × V))
      → lookup j m ≡ none
      → (k == j) ≡ false
      → lookup j (insert k v m) ≡ none
  insert-none k j v m h n = lookup-insert k j v m ∙ rw n h

  pub IsKeyed-insert : (k : ℕ) (v : V) (m : List (ℕ × V)) → IsKeyed m → IsKeyed (insert k v m)
  unfolding insert
  IsKeyed-insert k v [] h = (unfold lookup in refl, tt)
  IsKeyed-insert k v ((j, w) ∷ m) h = elim (Bool-cases (j == k)) [
    | inl e ↦ rw e (rw (same e) h.0, h.1)
    | inr e ↦ rw e (insert-none k j v m h.0 (flip e), IsKeyed-insert k v m h.1)
  ]
    where
      same : (j == k) ≡ true → k ≡ j
      same e = ground arith

      flip : (j == k) ≡ false → (k == j) ≡ false
      flip e = ground arith

  pub IsKeyed-delete : (k : ℕ) (m : List (ℕ × V)) → IsKeyed m → IsKeyed (delete k m)
  unfolding delete
  IsKeyed-delete k [] h = tt
  IsKeyed-delete k ((j, w) ∷ m) h = elim (Bool-cases (j == k)) [
    | inl e ↦ rw e (IsKeyed-delete k m h.1)
    | inr e ↦ rw e (lookup-delete k j m ∙ rest (k == j), IsKeyed-delete k m h.1)
  ]
    where
      rest : (b : Bool) → (if b then none else lookup j m) ≡ none
      rest true = refl
      rest false = h.0

  module _ {ℓ} (P : ℕ × V → Type ℓ) where
    pub All-insert : (k : ℕ) (v : V) (m : List (ℕ × V)) → P (k, v) → All P m → All P (insert k v m)
    unfolding insert
    All-insert k v [] p h = (p, tt)
    All-insert k v ((j, w) ∷ m) p h = elim (Bool-cases (j == k)) [
      | inl e ↦ rw e (p, h.1)
      | inr e ↦ rw e (h.0, All-insert k v m p h.1)
    ]

    pub All-delete : (k : ℕ) (m : List (ℕ × V)) → All P m → All P (delete k m)
    unfolding delete
    All-delete k [] h = tt
    All-delete k ((j, w) ∷ m) h = elim (Bool-cases (j == k)) [
      | inl e ↦ rw e (All-delete k m h.1)
      | inr e ↦ rw e (h.0, All-delete k m h.1)
    ]
