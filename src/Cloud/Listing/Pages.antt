-- ===== src/Cloud/Listing/Pages.antt =====
-- The pages of a directory: `List` of internal/aliyunpan/source_client.go ends, and gives every page's entries.
use mathlib.Core.List.{append-nil}
use tdrive_aliyunpan.Base.{
  ℕ, zero, suc, ◌+◌, ◌≤◌, ◌≡◌, refl, ap, true, false, All, if_elim, List, [], ◌∷◌, ◌++◌, Option,
  some, Text, is_empty, contains, IsDistinct, length, Result, ok, err, arith,
}
use tdrive_aliyunpan.Base.Distinct.{distinct-le}
use tdrive_aliyunpan.Sync.Walk.{Node}
use tdrive_aliyunpan.Cloud.Request.{Words, RequestError}
use tdrive_aliyunpan.Cloud.Listing.{
  ListError, Page, page_entries, Listed, found, with_entries, add_page, after_page, list_pages,
}

-- The entries of one answer, and of a number of answers in a row.
abbrev answer_entries : Words → Text → Result RequestError Page → List Node
answer_entries s dir (err e) = []
answer_entries s dir (ok page) = page_entries s dir page.items

abbrev pub entries_from : Words → Text → (ℕ → Result RequestError Page) → ℕ → ℕ → List Node
entries_from s dir answers n zero = []
entries_from s dir answers n (suc count) =
    answer_entries s dir (answers n) ++ entries_from s dir answers (suc n) count

-- So many answers in a row are all the pages of a directory: each but the last has a marker, the last has none.
abbrev pub AreAllPages : (ℕ → Result RequestError Page) → ℕ → ℕ → Type 0
AreAllPages answers n zero = ⊥
AreAllPages answers n (suc zero) =
    (page : Page) × (answers n ≡ ok page) × (is_empty page.next_marker ≡ true)
AreAllPages answers n (suc (suc count)) =
    ((page : Page) × (answers n ≡ ok page) × (is_empty page.next_marker ≡ false))
    × AreAllPages answers (suc n) (suc count)

more_pages :
    (answers : ℕ → Result RequestError Page) (n count : ℕ) (page : Page)
    → answers n ≡ ok page
    → is_empty page.next_marker ≡ false
    → AreAllPages answers (suc n) count
    → AreAllPages answers n (suc count)
more_pages answers n zero page h k a = absurd a
more_pages answers n (suc count) page h k a = ((page, h, k), a)

-- A result, if it is a listing, is of all the pages of the directory, which are those asked for.
abbrev pub Gathers : Words → Text → (ℕ → Result RequestError Page) → ℕ → Listed → Type 0
Gathers s dir answers n l =
    (nodes : List Node)
    → l.outcome ≡ ok nodes
    → (nodes ≡ entries_from s dir answers n l.pages) × AreAllPages answers n l.pages

-- The markers that a server gives are among some.
abbrev pub GivesMarkers : List Text → (ℕ → Result RequestError Page) → Type 0
GivesMarkers markers answers =
    (n : ℕ) (page : Page)
    → answers n ≡ ok page
    → is_empty page.next_marker ≡ false
    → contains markers page.next_marker ≡ true

module _ (s : Words) (dir : Text) (answers : ℕ → Result RequestError Page) (markers : List Text)
    (gives : GivesMarkers markers answers) where
  -- What the loop gives from a page on, with so many markers seen and so much fuel.
  abbrev Ends : ℕ → ℕ → Option Listed → Type 0
  Ends n fuel o = (l : Listed) × (o ≡ some l) × (l.pages ≤ fuel) × Gathers s dir answers n l

  add_page-Gathers :
      (n : ℕ) (page : Page) (l : Listed)
      → answers n ≡ ok page
      → is_empty page.next_marker ≡ false
      → Gathers s dir answers (suc n) l
      → Gathers s dir answers n (record {
        outcome = with_entries (page_entries s dir page.items) l.outcome;
        pages = suc l.pages;
      })
  add_page-Gathers n page l h marked rest nodes e = (
    rw h (by_outcome l.outcome refl nodes e),
    more_pages answers n l.pages page h marked (pages_of l.outcome refl e),
  )
    where
      by_outcome :
          (outcome : Result ListError (List Node))
          → l.outcome ≡ outcome
          → (nodes : List Node) → with_entries (page_entries s dir page.items) outcome ≡ ok nodes
          → nodes ≡ page_entries s dir page.items ++ entries_from s dir answers (suc n) l.pages
      by_outcome (ok more) k nodes e = ground (arith, (rest more k).0)
      by_outcome (err f) k nodes e = absurd (cc)

      pages_of :
          (outcome : Result ListError (List Node))
          → l.outcome ≡ outcome
          → with_entries (page_entries s dir page.items) outcome ≡ ok nodes
          → AreAllPages answers (suc n) l.pages
      pages_of (ok more) k e = (rest more k).1
      pages_of (err f) k e = absurd (cc)

  -- One answer, with what the loop does after it.
  after_page-Ends :
      (fuel n : ℕ) (seen : List Text) (next : List Text → Option Listed)
      (answer : Result RequestError Page)
      → answers n ≡ answer
      → ((marker : Text)
          → contains seen marker ≡ false
          → contains ([] ∷ markers) marker ≡ true
          → Ends (suc n) fuel (next (marker ∷ seen)))
      → Ends n (suc fuel) (after_page s dir next seen answer)
  after_page-Ends fuel n seen next (err e) h rest =
      (found (err (ListError.requested e)), refl, omega arith, λ nodes q. absurd (cc))
  after_page-Ends fuel n seen next (ok page) h rest =
      if_elim (Ends n (suc fuel)) (is_empty page.next_marker)
        (λ last. (
          found (ok (page_entries s dir page.items)),
          refl,
          omega arith,
          λ nodes q.
              (rw h (ground (arith, append-nil (page_entries s dir page.items))), (page, h, last)),
        ))
        (λ marked.
          if_elim (Ends n (suc fuel)) (contains seen page.next_marker)
            (λ _.
              (found (err ListError.repeated_marker), refl, omega arith, λ nodes q. absurd (cc)))
            (λ fresh.
              let known : contains ([] ∷ markers) page.next_marker ≡ true =
                ground (arith, gives n page h marked) in
              let later = rest page.next_marker fresh known in
              (
                record {
                  outcome = with_entries (page_entries s dir page.items) later.0.outcome;
                  pages = suc later.0.pages;
                },
                ap (add_page (page_entries s dir page.items)) later.1,
                omega (arith, later.2),
                add_page-Gathers n page later.0 h marked later.3,
              )))

  list_pages-Ends :
      (fuel n : ℕ) (seen : List Text)
      → IsDistinct seen
      → All (λ m. contains ([] ∷ markers) m ≡ true) seen
      → fuel + length seen ≡ suc (suc (length markers))
      → Ends n fuel (list_pages s dir answers fuel n seen)
  unfolding list_pages
  list_pages-Ends zero n seen d a k = absurd (omega (arith, distinct-le seen ([] ∷ markers) d a, k))
  list_pages-Ends (suc fuel) n seen d a k =
      after_page-Ends fuel n seen (list_pages s dir answers fuel (suc n)) (answers n) refl
        (λ marker fresh known.
          list_pages-Ends fuel (suc n) (marker ∷ seen) (fresh, d) (known, a) (omega (arith, k)))

  -- A listing of a directory whose server gives its markers from a finite set ends: with as much fuel as
  -- the set has markers, and one, there is a result after at most as many pages; if it is a listing,
  -- it holds the entries of all the pages, in order, up to the first without a marker.
  pub list_pages-ends :
      (l : Listed) × (list_pages s dir answers (suc (length markers)) 0 ([] ∷ []) ≡ some l)
      × (l.pages ≤ suc (length markers))
      × Gathers s dir answers 0 l
  list_pages-ends =
      list_pages-Ends (suc (length markers)) 0 ([] ∷ []) (refl, tt) (refl, tt) (omega arith)
