-- ===== src/Sync/Budget/Rows.antt =====
-- Queues in which nothing new runs: rows are kept with their ID and size, or dropped.
use tdrive_aliyunpan.Base.{
  ◌≡◌, refl, ◌∙◌, true, false, List, [], ◌∷◌, arith, Text, text_eq, contains, IsDistinct,
  Bool-cases, inl, inr,
}
use tdrive_aliyunpan.Sync.Item.{Item, is_running}
use tdrive_aliyunpan.Sync.Engine.{modify}
use tdrive_aliyunpan.Sync.History.{ids, keep_rows}

pub data Calmer : List Item → List Item → Type 0 where
  nil : Calmer [] []
  keep :
      {q r : List Item} (i j : Item)
      → j.id ≡ i.id
      → j.size ≡ i.size
      → (is_running j.state ≡ true → is_running i.state ≡ true)
      → Calmer q r
      → Calmer (i ∷ q) (j ∷ r)
  drop : {q r : List Item} (i : Item) → Calmer q r → Calmer (i ∷ q) r

pub Calmer-refl : (q : List Item) → Calmer q q
Calmer-refl [] = nil
Calmer-refl (i ∷ q) = keep i i refl refl (λ h. h) (Calmer-refl q)

pub Calmer-trans : {p q r : List Item} → Calmer p q → Calmer q r → Calmer p r
Calmer-trans nil c = c
Calmer-trans (drop i b) c = drop i (Calmer-trans b c)
Calmer-trans (keep i j a s h b) (keep _ k a' s' h' c) =
    keep i k (a' ∙ a) (s' ∙ s) (λ x. h (h' x)) (Calmer-trans b c)
Calmer-trans (keep i j a s h b) (drop _ c) = drop i (Calmer-trans b c)

-- A write that keeps ID and size, and starts nothing.
pub record IsCalm (f : Item → Item) : Type 0 where
  pub id : (i : Item) → (f i).id ≡ i.id
  pub size : (i : Item) → (f i).size ≡ i.size
  pub calm : (i : Item) → is_running (f i).state ≡ true → is_running i.state ≡ true

pub Calmer-modify :
    (id : Text) (f : Item → Item) (q : List Item) → IsCalm f → Calmer q (modify id f q)
unfolding modify
Calmer-modify id f [] c = nil
Calmer-modify id f (i ∷ q) c = elim (Bool-cases (text_eq i.id id)) [
  | inl e ↦ rw e (keep i (f i) (c.id i) (c.size i) (c.calm i) (Calmer-modify id f q c))
  | inr e ↦ rw e (keep i i refl refl (λ h. h) (Calmer-modify id f q c))
]

pub Calmer-keep_rows : (dropped : List Text) (q : List Item) → Calmer q (keep_rows dropped q)
unfolding keep_rows
Calmer-keep_rows dropped [] = nil
Calmer-keep_rows dropped (i ∷ q) = elim (Bool-cases (contains dropped i.id)) [
  | inl e ↦ rw e (drop i (Calmer-keep_rows dropped q))
  | inr e ↦ rw e (keep i i refl refl (λ h. h) (Calmer-keep_rows dropped q))
]

contains-Calmer :
    {q r : List Item} (t : Text)
    → Calmer q r
    → contains (ids q) t ≡ false
    → contains (ids r) t ≡ false
contains-Calmer t nil h = h
contains-Calmer t (keep i j a s k c) h = ground (arith, contains-Calmer t c)
contains-Calmer t (drop i c) h = contains-Calmer t c (ground arith)

pub IsDistinct-Calmer : {q r : List Item} → Calmer q r → IsDistinct (ids q) → IsDistinct (ids r)
IsDistinct-Calmer nil h = h
IsDistinct-Calmer (keep i j a s k c) h =
    (rw a (contains-Calmer i.id c h.0), IsDistinct-Calmer c h.1)
IsDistinct-Calmer (drop i c) h = IsDistinct-Calmer c h.1
