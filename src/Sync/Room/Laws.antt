-- ===== src/Sync/Room/Laws.antt =====
-- The staging area keeps to its limit, and what is released is what was reserved.
use tdrive_aliyunpan.Base.{
  ◌≡◌, refl, ◌∙◌, ap, ◌⊎◌, inl, inr, Bool, true, false, ◌&&◌, List, Option, none, some, ℤ, pos,
  ◌+ℤ◌, ◌-ℤ◌, ◌≤ℤ◌, ltb_ℤ, leb_ℤ, int_laws, arith, Text, text_eq, text_eq_iff, text_eq_refl,
  is_empty, Bool-cases, if◌then◌else◌,
}
use tdrive_aliyunpan.Base.Dict.{lookup, insert, lookup-insert, lookup-delete}
use tdrive_aliyunpan.Sync.Engine.{Engine}
use tdrive_aliyunpan.Sync.Room.{
  Room, reserved, no_room, unlimited, negative_size, stage_limit, bytes_of, reserve_entry,
  take_room, reserve_stage_room, put_left, release_entry, release_stage_room,
}

+ℤ-ℤ : (a b : ℤ) → (a +ℤ b) -ℤ b ≡ a
+ℤ-ℤ a b = omega int_laws

leb_ℤ→le : (x y : ℤ) → leb_ℤ x y ≡ true → x ≤ℤ y
leb_ℤ→le x y h = ground arith

ltb_ℤ→le : (x y : ℤ) → ltb_ℤ x y ≡ false → y ≤ℤ x
ltb_ℤ→le x y h = ground arith

-- What `reserveStageRoom` promises for a size and what the staging tree holds besides.
abbrev pub RoomSpec : Text → ℤ → ℤ → ℤ → Engine → Room × Engine → Type 0
RoomSpec id size used cache_limit e (reserved, e') =
    (pos 0 ≤ℤ size)
    × (e' ≡ take_room id size e)
    × ((used +ℤ e'.stage_reserved ≤ℤ stage_limit cache_limit e)
        ⊎ (used +ℤ e'.stage_reserved ≤ℤ size))
RoomSpec id size used cache_limit e (no_room, e') =
    (e' ≡ e)
    × (ltb_ℤ (stage_limit cache_limit e) (used +ℤ e.stage_reserved +ℤ size) ≡ true)
    × (ltb_ℤ (pos 0) (used +ℤ e.stage_reserved) ≡ true)
RoomSpec id size used cache_limit e (unlimited, e') =
    (e' ≡ e) × (stage_limit cache_limit e ≤ℤ pos 0)
RoomSpec id size used cache_limit e (negative_size, e') = (e' ≡ e) × (ltb_ℤ size (pos 0) ≡ true)

-- A reservation that is granted brings what is staged and reserved to the limit at most, or to the
-- size alone where nothing was staged or reserved before. A refusal changes nothing: the size is
-- negative, or it would pass the limit while something is staged or reserved. Without a limit
-- nothing is recorded.
pub reserve_stage_room-RoomSpec :
    (id : Text) (size used cache_limit : ℤ) (e : Engine)
    → RoomSpec id size used cache_limit e (reserve_stage_room id size used cache_limit e)
unfolding reserve_stage_room
reserve_stage_room-RoomSpec id size used cache_limit e =
    cases (ltb_ℤ size (pos 0)) (leb_ℤ (stage_limit cache_limit e) (pos 0))
      (ltb_ℤ (stage_limit cache_limit e) (used +ℤ e.stage_reserved +ℤ size))
      (ltb_ℤ (pos 0) (used +ℤ e.stage_reserved)) refl refl refl refl
  where
    cases :
        (a b c d : Bool)
        → ltb_ℤ size (pos 0) ≡ a
        → leb_ℤ (stage_limit cache_limit e) (pos 0) ≡ b
        → ltb_ℤ (stage_limit cache_limit e) (used +ℤ e.stage_reserved +ℤ size) ≡ c
        → ltb_ℤ (pos 0) (used +ℤ e.stage_reserved) ≡ d
        → RoomSpec id size used cache_limit e (
            if a
            then (negative_size, e)
            else if b
            then (unlimited, e)
            else if c && d
            then (no_room, e)
            else (reserved, take_room id size e))
    cases true b c d ha hb hc hd = (refl, ha)
    cases false true c d ha hb hc hd = (refl, leb_ℤ→le (stage_limit cache_limit e) (pos 0) hb)
    cases false false true true ha hb hc hd = (refl, hc, hd)
    cases false false true false ha hb hc hd = (
      ltb_ℤ→le size (pos 0) ha,
      refl,
      inr (unfold take_room in omega (int_laws, ltb_ℤ→le (pos 0) (used +ℤ e.stage_reserved) hd)),
    )
    cases false false false d ha hb hc hd = (
      ltb_ℤ→le size (pos 0) ha,
      refl,
      inl (
          unfold take_room in
          omega
            (int_laws, ltb_ℤ→le (stage_limit cache_limit e) (used +ℤ e.stage_reserved +ℤ size) hc)),
    )

-- An entry of the reservations, if the item has one, is positive.
abbrev pub IsEntry : Option ℤ → Type 0
IsEntry none = Unit
IsEntry (some n) = pos 1 ≤ℤ n

put_left-lookup :
    (id j : Text) (was : Option ℤ) (left : ℤ) (m : List (Text × ℤ))
    → IsEntry was
    → left ≡ bytes_of was
    → lookup j (put_left id left m) ≡ (if text_eq id j then was else lookup j m)
put_left-lookup id j none left m h same = rw same (lookup-delete id j m)
put_left-lookup id j (some n) left m h same = rw (same, positive n h) (lookup-insert id j n m)
  where
    positive : (n : ℤ) → pos 1 ≤ℤ n → leb_ℤ n (pos 0) ≡ false
    positive n h = ground arith

entry_restored :
    (id j : Text) (size : ℤ) (m : List (Text × ℤ))
    → IsEntry (lookup id m)
    → lookup j (release_entry id size (reserve_entry id size m)) ≡ lookup j m
entry_restored id j size m entry = elim (Bool-cases (is_empty id)) [
  | inl e ↦ rw e refl
  | inr e ↦ rw e (put_left-lookup id j (lookup id m) _ sized entry left ∙ other (text_eq id j) refl)
]
  where
    sized : List (Text × ℤ)
    sized = insert id (bytes_of (lookup id m) +ℤ size) m

    found : lookup id sized ≡ some (bytes_of (lookup id m) +ℤ size)
    found = rw (lookup-insert id id (bytes_of (lookup id m) +ℤ size) m, text_eq_refl id) refl

    left : bytes_of (lookup id sized) -ℤ size ≡ bytes_of (lookup id m)
    left = rw found (+ℤ-ℤ (bytes_of (lookup id m)) size)

    other : (b : Bool) → text_eq id j ≡ b → (if b then lookup id m else lookup j sized) ≡ lookup j m
    other true t = ap (λ k. lookup k m) ((text_eq_iff id j).0 t)
    other false t = rw (lookup-insert id j (bytes_of (lookup id m) +ℤ size) m, t) refl

-- Releasing what was reserved restores the total and every item's entry, if the total was not
-- negative and the item's entry, if any, was positive.
pub release_stage_room-take_room :
    (id : Text) (size : ℤ) (e : Engine)
    → pos 0 ≤ℤ e.stage_reserved
    → IsEntry (lookup id e.stage_reservations)
    → ((release_stage_room id size (take_room id size e)).stage_reserved ≡ e.stage_reserved)
      × ((j : Text)
          → lookup j (release_stage_room id size (take_room id size e)).stage_reservations
            ≡ lookup j e.stage_reservations)
unfolding release_stage_room take_room
release_stage_room-take_room id size e total entry = (restored, entries)
  where
    not_negative : (n : ℤ) → pos 0 ≤ℤ n → ltb_ℤ n (pos 0) ≡ false
    not_negative n h = ground arith

    restored :
        (if ltb_ℤ (e.stage_reserved +ℤ size -ℤ size) (pos 0)
          then pos 0
          else e.stage_reserved +ℤ size -ℤ size)
        ≡ e.stage_reserved
    restored = rw (+ℤ-ℤ e.stage_reserved size, not_negative e.stage_reserved total) refl

    entries :
        (j : Text)
        → lookup j (release_entry id size (reserve_entry id size e.stage_reservations))
          ≡ lookup j e.stage_reservations
    entries j = entry_restored id j size e.stage_reservations entry
