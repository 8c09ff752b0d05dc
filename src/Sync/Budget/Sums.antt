-- ===== src/Sync/Budget/Sums.antt =====
-- Sums over the queue and over the reservations.
use tdrive_aliyunpan.Base.{
  ◌≡◌, ap, ◌∙◌, true, false, List, [], ◌∷◌, some, arith, ℤ, pos, pos_part, neg_part, ◌+ℤ◌, ◌≤ℤ◌,
  Text, text_eq, text_eq_sym, contains, IsDistinct, All, int_laws, Bool-cases, inl, inr,
}
use tdrive_aliyunpan.Base.Dict.{lookup, delete, lookup-delete}
use tdrive_aliyunpan.Sync.Item.{Item, is_running}
use tdrive_aliyunpan.Sync.History.{ids}
use tdrive_aliyunpan.Sync.Budget.{share, running_bytes}
use tdrive_aliyunpan.Sync.Budget.Rows.{Calmer, nil, keep, drop}

abbrev pub total : List ℤ → ℤ
total [] = pos 0
total (n ∷ ns) = n +ℤ total ns

abbrev pub held_total : List (Text × ℤ) → ℤ
held_total [] = pos 0
held_total ((k, n) ∷ ns) = n +ℤ held_total ns

abbrev pub IsSize : ℤ → Item → Type 0
IsSize most i = (pos 0 ≤ℤ i.size) × (i.size ≤ℤ most)

-- A running row's size is reserved under its ID.
abbrev pub Covered : List (Text × ℤ) → Item → Type 0
Covered held i = is_running i.state ≡ true → lookup i.id held ≡ some i.size

abbrev pub HeldSize : Text × ℤ → Type 0
HeldSize (k, n) = pos 0 ≤ℤ n

share_nonneg : (i : Item) → pos 0 ≤ℤ i.size → pos 0 ≤ℤ share i
share_nonneg i h = elim (Bool-cases (is_running i.state)) [
  | inl e ↦ rw e h
  | inr e ↦ rw e (omega arith)
]

pub running_bytes-nonneg :
    (most : ℤ) (q : List Item) → All (IsSize most) q → pos 0 ≤ℤ running_bytes q
running_bytes-nonneg most [] h = omega arith
running_bytes-nonneg most (i ∷ q) h =
    omega (int_laws, share_nonneg i h.0.0, running_bytes-nonneg most q h.1)

share-Calmer :
    (i j : Item)
    → j.size ≡ i.size
    → pos 0 ≤ℤ i.size
    → (is_running j.state ≡ true → is_running i.state ≡ true)
    → share j ≤ℤ share i
share-Calmer i j s n k = elim (Bool-cases (is_running j.state)) [
  | inl e ↦ rw (e, k e, s) (omega arith)
  | inr e ↦ rw e (share_nonneg i n)
]

pub running_bytes-Calmer :
    (most : ℤ) {q r : List Item}
    → Calmer q r
    → All (IsSize most) q
    → running_bytes r ≤ℤ running_bytes q
running_bytes-Calmer most nil h = omega arith
running_bytes-Calmer most (keep i j a s k c) h =
    omega (int_laws, share-Calmer i j s h.0.0 k, running_bytes-Calmer most c h.1)
running_bytes-Calmer most (drop i c) h =
    omega (int_laws, share_nonneg i h.0.0, running_bytes-Calmer most c h.1)

pub IsSize-Calmer :
    (most : ℤ) {q r : List Item} → Calmer q r → All (IsSize most) q → All (IsSize most) r
IsSize-Calmer most nil h = tt
IsSize-Calmer most (keep i j a s k c) h = (rw s h.0, IsSize-Calmer most c h.1)
IsSize-Calmer most (drop i c) h = IsSize-Calmer most c h.1

pub Covered-Calmer :
    (held : List (Text × ℤ)) {q r : List Item}
    → Calmer q r
    → All (Covered held) q
    → All (Covered held) r
Covered-Calmer held nil h = tt
Covered-Calmer held (keep i j a s k c) h = ((λ e. rw (a, s) (h.0 (k e))), Covered-Calmer held c h.1)
Covered-Calmer held (drop i c) h = Covered-Calmer held c h.1

held_total-nonneg : (held : List (Text × ℤ)) → All HeldSize held → pos 0 ≤ℤ held_total held
held_total-nonneg [] h = omega arith
held_total-nonneg ((k, n) ∷ held) h = omega (int_laws, h.0, held_total-nonneg held h.1)

pub HeldSize-delete :
    (id : Text) (held : List (Text × ℤ)) → All HeldSize held → All HeldSize (delete id held)
unfolding delete
HeldSize-delete id [] h = tt
HeldSize-delete id ((k, n) ∷ held) h = elim (Bool-cases (text_eq k id)) [
  | inl e ↦ rw e (HeldSize-delete id held h.1)
  | inr e ↦ rw e (h.0, HeldSize-delete id held h.1)
]

held_total-delete_le :
    (id : Text) (held : List (Text × ℤ))
    → All HeldSize held
    → held_total (delete id held) ≤ℤ held_total held
unfolding delete
held_total-delete_le id [] h = omega arith
held_total-delete_le id ((k, n) ∷ held) h = elim (Bool-cases (text_eq k id)) [
  | inl e ↦ rw e (omega (int_laws, h.0, held_total-delete_le id held h.1))
  | inr e ↦ rw e (omega (int_laws, held_total-delete_le id held h.1))
]

-- Taking out a reservation frees its size.
pub held_total-delete :
    (id : Text) (size : ℤ) (held : List (Text × ℤ))
    → All HeldSize held
    → lookup id held ≡ some size
    → held_total (delete id held) +ℤ size ≤ℤ held_total held
unfolding delete lookup
held_total-delete id size [] h e = cc
held_total-delete id size ((k, n) ∷ held) h e = elim (Bool-cases (text_eq k id)) [
  | inl a ↦ rw a (
      let same : n ≡ size = ground arith in
      omega (int_laws, ap pos_part same, ap neg_part same, held_total-delete_le id held h.1))
  | inr a ↦ rw a (omega (int_laws, held_total-delete id size held h.1 (ground arith)))
]

-- Rows with other IDs keep their cover when an entry is taken out.
pub Covered-delete :
    (id : Text) (held : List (Text × ℤ)) (q : List Item)
    → contains (ids q) id ≡ false
    → All (Covered held) q
    → All (Covered (delete id held)) q
Covered-delete id held [] n h = tt
Covered-delete id held (i ∷ q) n h = (
  (λ e. lookup-delete id i.id held ∙ rw (other i.id (ground arith)) (h.0 e)),
  Covered-delete id held q (ground arith) h.1,
)
  where
    other : (t : Text) → text_eq t id ≡ false → text_eq id t ≡ false
    other t e = text_eq_sym id t ∙ e

-- With distinct IDs the running rows fit in the reservations.
pub running_bytes-le :
    (most : ℤ) (held : List (Text × ℤ)) (q : List Item)
    → All HeldSize held
    → All (IsSize most) q
    → IsDistinct (ids q)
    → All (Covered held) q
    → running_bytes q ≤ℤ held_total held
running_bytes-le most held [] h s d c = held_total-nonneg held h
running_bytes-le most held (i ∷ q) h s d c = elim (Bool-cases (is_running i.state)) [
  | inl e ↦ rw e (
      omega (
        int_laws,
        held_total-delete i.id i.size held h (c.0 e),
        running_bytes-le most (delete i.id held) q (HeldSize-delete i.id held h) s.1 d.1
            (Covered-delete i.id held q d.0 c.1),
      ))
  | inr e ↦ rw e (omega (int_laws, running_bytes-le most held q h s.1 d.1 c.1))
]
