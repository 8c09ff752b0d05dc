-- ===== src/Sync/Staging/Laws.antt =====
-- `stage` gives back its slot and its room on every path.
use tdrive_aliyunpan.Base.{
  ℕ, suc, ◌-◌, ◌≡◌, refl, ap, ◌∙◌, subst, ◌⊎◌, Bool, true, false, not, List, [], ◌∷◌, Option, none,
  some, ℤ, pos, ◌≤ℤ◌, ltb_ℤ, leb_ℤ, ◌+ℤ◌, ◌&&◌, Text, arith, Bool-cases, inl, inr, if◌then◌else◌,
}
use tdrive_aliyunpan.Base.Dict.{lookup}
use tdrive_aliyunpan.Sync.Item.{Item, Stage}
use tdrive_aliyunpan.Sync.Engine.{
  Engine, find_item, set_stage, note_row, note_download, mark_queue_dirty,
}
use tdrive_aliyunpan.Sync.Room.{
  Room, negative_size, no_room, unlimited, reserved, stage_limit, take_room, reserve_stage_room,
  release_stage_room, acquire_download_slot, release_download_slot,
}
use tdrive_aliyunpan.Sync.Room.Laws.{IsEntry, release_stage_room-take_room}
use tdrive_aliyunpan.Sync.Retries.{Failure}
use tdrive_aliyunpan.Sync.Staging.{Cloud, note_all, fetched, resolved, in_room, in_slot, stage}

-- The slots and the room of two engines are the same.
record SameRoom (e f : Engine) : Type 0 where
  slots : f.download_active ≡ e.download_active
  total : f.stage_reserved ≡ e.stage_reserved
  entries : f.stage_reservations ≡ e.stage_reservations

SameRoom-refl : (e : Engine) → SameRoom e e
SameRoom-refl e = record { slots = refl; total = refl; entries = refl }

SameRoom-trans : (e f g : Engine) → SameRoom e f → SameRoom f g → SameRoom e g
SameRoom-trans e f g p q = record {
  slots = q.slots ∙ p.slots;
  total = q.total ∙ p.total;
  entries = q.entries ∙ p.entries;
}

note_row-SameRoom :
    (id : Text) (done : ℤ) (o : Option Item) (e : Engine) → SameRoom e (note_row id done o e)
unfolding mark_queue_dirty
note_row-SameRoom id done none e = SameRoom-refl e
note_row-SameRoom id done (some i) e = record {
  slots = ground arith;
  total = ground arith;
  entries = ground arith;
}

note_all-SameRoom :
    (id : Text) (progress : List ℤ) (e : Engine) → SameRoom e (note_all id progress e)
unfolding note_download
note_all-SameRoom id [] e = SameRoom-refl e
note_all-SameRoom id (done ∷ progress) e =
    SameRoom-trans e (note_download id done e) _
      (note_row-SameRoom id done (find_item id e.queue) e)
      (note_all-SameRoom id progress (note_download id done e))

fetched-SameRoom :
    (o : Option Failure) (c : Cloud) (item : Item) (e : Engine) → SameRoom e (fetched o c item e).1
fetched-SameRoom (some f) c item e = SameRoom-refl e
fetched-SameRoom none c item e = note_all-SameRoom item.id c.progress e

resolved-SameRoom :
    (o : Option Failure) (c : Cloud) (item : Item) (e : Engine) → SameRoom e (resolved o c item e).1
unfolding set_stage mark_queue_dirty
resolved-SameRoom (some f) c item e = SameRoom-refl e
resolved-SameRoom none c item e =
    SameRoom-trans e (set_stage item.id Stage.downloading e) _
      (record { slots = refl; total = refl; entries = refl })
      (fetched-SameRoom c.set_download_rate c item (set_stage item.id Stage.downloading e))

either :
    (b : Bool) (e : Engine)
    → ((if b then some e else none) ≡ some e) ⊎ ((if b then some e else none) ≡ none)
either true e = inl refl
either false e = inr refl

-- As above, but the reservations only have the same entries.
pub record GivenBack (e f : Engine) : Type 0 where
  pub slots : f.download_active ≡ e.download_active
  pub total : f.stage_reserved ≡ e.stage_reserved
  pub entries : (id : Text) → lookup id f.stage_reservations ≡ lookup id e.stage_reservations

module _ (c : Cloud) (item : Item) (e : Engine) where
  -- The engine with the slot.
  abbrev held : Engine
  held = record e { download_active = suc e.download_active }

  suc-sub : (n : ℕ) → suc n - 1 ≡ n
  suc-sub n = omega arith

  abbrev ReservedAs : Room × Engine → Type 0
  ReservedAs (reserved, f) = f ≡ take_room item.id item.size held
  ReservedAs (unlimited, f) = f ≡ held
  ReservedAs (negative_size, f) = f ≡ held
  ReservedAs (no_room, f) = f ≡ held

  reserve_stage_room-ReservedAs :
      ReservedAs (reserve_stage_room item.id item.size c.used c.cache_limit held)
  unfolding reserve_stage_room
  reserve_stage_room-ReservedAs =
      tested (ltb_ℤ item.size (pos 0)) (leb_ℤ (stage_limit c.cache_limit held) (pos 0)) (
        ltb_ℤ (stage_limit c.cache_limit held) (c.used +ℤ e.stage_reserved +ℤ item.size)
        && ltb_ℤ (pos 0) (c.used +ℤ e.stage_reserved))
    where
      tested :
          (x y z : Bool)
          → ReservedAs (
              if x
              then (negative_size, held)
              else if y
              then (unlimited, held)
              else if z
              then (no_room, held)
              else (reserved, take_room item.id item.size held))
      tested true y z = refl
      tested false true z = refl
      tested false false true = refl
      tested false false false = refl

  -- The slot alone is given back.
  slot_back : (f : Engine) → SameRoom held f → GivenBack e (release_download_slot f)
  unfolding release_download_slot
  slot_back f same = record {
    slots = rw same.slots (suc-sub e.download_active);
    total = same.total;
    entries = λ id. ap (lookup id) same.entries;
  }

  same_as : (f g : Engine) → f ≡ held → SameRoom f g → SameRoom held g
  same_as f g h same = subst (λ x. SameRoom x g) h same

  -- The slot and the room are.
  room_back :
      (f g : Engine)
      → pos 0 ≤ℤ e.stage_reserved
      → IsEntry (lookup item.id e.stage_reservations)
      → f ≡ take_room item.id item.size held
      → SameRoom f g
      → GivenBack e (release_download_slot (release_stage_room item.id item.size g))
  unfolding release_download_slot release_stage_room take_room
  room_back f g total entry h same =
      let back = release_stage_room-take_room item.id item.size e total entry in
      let taken = subst (λ x. SameRoom x g) h same in
      record {
        slots = rw taken.slots (suc-sub e.download_active);
        total = rw taken.total back.0;
        entries = λ id. rw taken.entries (back.1 id);
      }

  in_room-GivenBack :
      (p : Room × Engine)
      → pos 0 ≤ℤ e.stage_reserved
      → IsEntry (lookup item.id e.stage_reservations)
      → ReservedAs p
      → GivenBack e (in_room c item p).1
  in_room-GivenBack (negative_size, f) total entry h = slot_back f (same_as f f h (SameRoom-refl f))
  in_room-GivenBack (no_room, f) total entry h = slot_back f (same_as f f h (SameRoom-refl f))
  in_room-GivenBack (unlimited, f) total entry h =
      slot_back _ (same_as f _ h (resolved-SameRoom c.resolve_drive c item f))
  in_room-GivenBack (reserved, f) total entry h =
      room_back f _ total entry h (resolved-SameRoom c.resolve_drive c item f)

  slot_taken : (acquire_download_slot e ≡ some held) ⊎ (acquire_download_slot e ≡ none)
  unfolding acquire_download_slot
  slot_taken = either _ held

  nothing_taken : GivenBack e e
  nothing_taken = record { slots = refl; total = refl; entries = λ id. refl }

  in_slot-GivenBack :
      pos 0 ≤ℤ e.stage_reserved
      → IsEntry (lookup item.id e.stage_reservations)
      → GivenBack e (in_slot c item e (acquire_download_slot e)).1
  in_slot-GivenBack total entry = elim slot_taken [
    | inl some_slot ↦ rw some_slot (in_room-GivenBack _ total entry reserve_stage_room-ReservedAs)
    | inr no_slot ↦ rw no_slot nothing_taken
  ]

  -- However the cloud answers, and whether or not there is a slot and room, `stage` leaves as many slots
  -- taken as before, as many bytes of staging room reserved, and each item's reservation as it was.
  -- The total was not negative, and the item's entry, if any, was positive.
  pub stage-GivenBack :
      pos 0 ≤ℤ e.stage_reserved
      → IsEntry (lookup item.id e.stage_reservations)
      → GivenBack e (stage c item e).1
  unfolding stage
  stage-GivenBack total entry = elim (Bool-cases (not c.configured)) [
    | inl missing ↦ rw missing nothing_taken
    | inr present ↦ rw present (in_slot-GivenBack total entry)
  ]
