-- ===== src/Sync/Budget/Writes.antt =====
-- A write to the one row of an ID, in a queue whose IDs are distinct.
use tdrive_aliyunpan.Base.{
  ℕ, ◌≡◌, refl, ap, ◌∙◌, true, false, List, [], ◌∷◌, ◌++◌, some, arith, ℤ, ◌+ℤ◌, Text, text_eq,
  text_eq_iff, text_eq_sym, contains, IsDistinct, All, Bool-cases, inl, inr, int_laws, pos_part,
  neg_part,
}
use tdrive_aliyunpan.Base.Dict.{lookup}
use tdrive_aliyunpan.Sync.Item.{Item, State, is_running, is_pending}
use tdrive_aliyunpan.Sync.Engine.{modify, find_item}
use tdrive_aliyunpan.Sync.Claim.{claim}
use tdrive_aliyunpan.Sync.History.{ids}
use tdrive_aliyunpan.Sync.Budget.{share, running_bytes}
use tdrive_aliyunpan.Sync.Budget.Sums.{Covered}

pub modify_absent :
    (id : Text) (f : Item → Item) (q : List Item) → contains (ids q) id ≡ false → modify id f q ≡ q
unfolding modify
modify_absent id f [] h = refl
modify_absent id f (i ∷ q) h =
    rw (absent_head i q h) (ap (◌∷◌ i) (modify_absent id f q (ground arith)))
  where
    absent_head :
        (i : Item) (q : List Item) → contains (ids (i ∷ q)) id ≡ false → text_eq i.id id ≡ false
    absent_head i q h = ground arith

pub ids-modify :
    (id : Text) (f : Item → Item) (q : List Item)
    → ((i : Item) → (f i).id ≡ i.id)
    → ids (modify id f q) ≡ ids q
unfolding modify
ids-modify id f [] h = refl
ids-modify id f (i ∷ q) h = elim (Bool-cases (text_eq i.id id)) [
  | inl e ↦ rw (e, h i, ids-modify id f q h)
  | inr e ↦ rw (e, ids-modify id f q h)
]

-- The head of the queue is the row found, or the row is in the tail.
module _ (id : Text) (f : Item → Item) (row : Item) where
  pub head_row :
      (i : Item) (q : List Item)
      → text_eq i.id id ≡ true
      → find_item id (i ∷ q) ≡ some row
      → i ≡ row
  unfolding find_item
  head_row i q e h = ground arith

  pub tail_row :
      (i : Item) (q : List Item)
      → text_eq i.id id ≡ false
      → find_item id (i ∷ q) ≡ some row
      → find_item id q ≡ some row
  unfolding find_item
  tail_row i q e h = ground arith

  pub tail_absent :
      (i : Item) (q : List Item)
      → text_eq i.id id ≡ true
      → contains (ids q) i.id ≡ false
      → modify id f q ≡ q
  tail_absent i q e h = modify_absent id f q (ground (arith, (text_eq_iff i.id id).0 e))

  pub All-modify :
      (P : Item → Type 0) (q : List Item)
      → IsDistinct (ids q)
      → find_item id q ≡ some row
      → P (f row)
      → All P q
      → All P (modify id f q)
  unfolding modify
  All-modify P [] d h p a = tt
  All-modify P (i ∷ q) d h p a = elim (Bool-cases (text_eq i.id id)) [
    | inl e ↦ rw (e, tail_absent i q e d.0, head_row i q e h) (p, a.1)
    | inr e ↦ rw e (a.0, All-modify P q d.1 (tail_row i q e h) p a.1)
  ]

  pub running_bytes-modify :
      (q : List Item)
      → IsDistinct (ids q)
      → find_item id q ≡ some row
      → running_bytes (modify id f q) +ℤ share row ≡ running_bytes q +ℤ share (f row)
  unfolding modify
  running_bytes-modify [] d h = unfold find_item in cc
  running_bytes-modify (i ∷ q) d h = elim (Bool-cases (text_eq i.id id)) [
    | inl e ↦ rw (e, tail_absent i q e d.0, head_row i q e h) (omega int_laws)
    | inr e ↦ rw e (
        let rest = running_bytes-modify q d.1 (tail_row i q e h) in
        omega (int_laws, ap pos_part rest, ap neg_part rest))
  ]

-- A claim in the middle of the queue.
ids-claim : (now : ℕ) (b a : List Item) (i : Item) → ids (b ++ claim now i ∷ a) ≡ ids (b ++ i ∷ a)
unfolding claim
ids-claim now [] a i = refl
ids-claim now (h ∷ b) a i = ap (◌∷◌ h.id) (ids-claim now b a i)

pub claim-IsDistinct :
    (now : ℕ) (b a : List Item) (i : Item)
    → IsDistinct (ids (b ++ i ∷ a))
    → IsDistinct (ids (b ++ claim now i ∷ a))
claim-IsDistinct now b a i d = rw (ids-claim now b a i) d

pub claim-All :
    (P : Item → Type 0) (now : ℕ) (b a : List Item) (i : Item)
    → P (claim now i)
    → All P (b ++ i ∷ a)
    → All P (b ++ claim now i ∷ a)
claim-All P now [] a i p h = (p, h.1)
claim-All P now (x ∷ b) a i p h = (h.0, claim-All P now b a i p h.1)

pub running_bytes-claim :
    (now : ℕ) (b a : List Item) (i : Item)
    → is_pending i.state ≡ true
    → running_bytes (b ++ claim now i ∷ a) ≡ running_bytes (b ++ i ∷ a) +ℤ i.size
unfolding claim
running_bytes-claim now [] a i h = rw (not_running i.state h) (omega int_laws)
  where
    not_running : (s : State) → is_pending s ≡ true → is_running s ≡ false
    not_running s e = ground arith
running_bytes-claim now (x ∷ b) a i h =
    let rest = running_bytes-claim now b a i h in
    omega (int_laws, ap pos_part rest, ap neg_part rest)

Covered-other :
    (held : List (Text × ℤ)) (id : Text) (size : ℤ) (i : Item)
    → text_eq id i.id ≡ false
    → Covered held i
    → Covered ((id, size) ∷ held) i
unfolding lookup
Covered-other held id size i n h = λ e. rw n (h e)

Covered-others :
    (held : List (Text × ℤ)) (id : Text) (size : ℤ) (q : List Item)
    → contains (ids q) id ≡ false
    → All (Covered held) q
    → All (Covered ((id, size) ∷ held)) q
Covered-others held id size [] n h = tt
Covered-others held id size (i ∷ q) n h = (
  Covered-other held id size i (text_eq_sym id i.id ∙ first i q n) h.0,
  Covered-others held id size q (ground arith) h.1,
)
  where
    first : (i : Item) (q : List Item) → contains (ids (i ∷ q)) id ≡ false → text_eq i.id id ≡ false
    first i q n = ground arith

contains-middle :
    (b a : List Item) (i : Item) (t : Text)
    → contains (ids (b ++ i ∷ a)) t ≡ false
    → text_eq i.id t ≡ false
contains-middle [] a i t h = ground arith
contains-middle (x ∷ b) a i t h = contains-middle b a i t (ground arith)

pub claim-Covered :
    (held : List (Text × ℤ)) (now : ℕ) (b a : List Item) (i : Item)
    → IsDistinct (ids (b ++ i ∷ a))
    → All (Covered held) (b ++ i ∷ a)
    → All (Covered ((i.id, i.size) ∷ held)) (b ++ claim now i ∷ a)
unfolding claim lookup
claim-Covered held now [] a i d h =
    ((λ _. ground (arith, (text_eq_iff i.id i.id).1)), Covered-others held i.id i.size a d.0 h.1)
claim-Covered held now (x ∷ b) a i d h = (
  Covered-other held i.id i.size x (contains-middle b a i x.id d.0) h.0,
  claim-Covered held now b a i d.1 h.1,
)
