-- ===== src/Download/Range/Copy.antt =====
-- What the copy of a body leaves in the partial file (`downloadRange` of
-- internal/aliyunpan/source_download.go).
use tdrive_aliyunpan.Base.{
  if_elim, ℕ, zero, suc, ◌+◌, ◌-◌, ◌<◌, ◌≤◌, ◌≡◌, refl, ◌⊎◌, List, [], ◌∷◌, Option, none, some, min,
  ltb, ◌==◌, inl, arith, if◌then◌else◌,
}
use tdrive_aliyunpan.Download.Range.{
  Content, Turn, Write, whole, broken, short, Copied, FetchError, write_range, stopped, written,
  copy_body, download_buffer_size,
}

abbrev pub total_of : List ℕ → ℕ
total_of [] = 0
total_of (n ∷ ns) = n + total_of ns

-- What the loop does to the file at one place.
abbrev pub Outside : ℕ → ℕ → ℕ → Type 0
Outside place offset remaining = (place < offset) ⊎ (offset + remaining ≤ place)

min-bounds : (a b : ℕ) → (min a b ≤ a) × (min a b ≤ b)
min-bounds a b = (omega arith, omega arith)

module _ (bytes : Content) (offset count : ℕ) (file : Content) (place : ℕ) where
  write_range-outside :
      Outside place offset count → write_range bytes offset count file place ≡ file place
  write_range-outside h = ground arith

  write_range-inside :
      offset ≤ place
      → place < offset + count
      → write_range bytes offset count file place ≡ bytes place
  write_range-inside h k = ground arith

module _ (bytes : Content) (offset count : ℕ) (file : Content) (next : Copied) where
  written-outside :
      (w : Write) (place : ℕ)
      → Outside place offset count
      → next.file place ≡ file place
      → (written w bytes offset count file next).file place ≡ file place
  written-outside whole place h k = k
  written-outside (broken n) place h k =
      write_range-outside bytes offset (min n count) file place (omega arith)
  written-outside (short n) place h k =
      write_range-outside bytes offset (min n count) file place (omega arith)

  -- A write without an error goes on.
  written-none : (w : Write) → (written w bytes offset count file next).error ≡ none → w ≡ whole
  written-none whole h = refl
  written-none (broken n) h = cc
  written-none (short n) h = cc

module _ (turns : ℕ → Turn) (bytes : Content) where
  -- Places outside the range keep their byte.
  pub copy_body-outside :
      (rounds offset remaining arrives : ℕ) (file : Content) (place : ℕ)
      → Outside place offset remaining
      → (copy_body turns bytes rounds offset remaining arrives file).file place ≡ file place
  unfolding copy_body
  copy_body-outside zero offset remaining arrives file place h = refl
  copy_body-outside (suc rounds) offset remaining arrives file place h =
      let want = min download_buffer_size remaining in
      let count = min want arrives in
      let filled = write_range bytes offset count file in
      let out : Outside place offset count = omega arith in
      let kept : filled place ≡ file place =
        write_range-outside bytes offset count file place out in
      let rest : (copy_body turns bytes rounds (offset + count) (remaining - count)
              (arrives - count) filled).file
            place
          ≡ filled place =
        copy_body-outside rounds (offset + count) (remaining - count) (arrives - count) filled place
          (omega arith) in
      let next =
        if ltb count want
        then stopped (some FetchError.incomplete) filled
        else copy_body turns bytes rounds (offset + count) (remaining - count) (arrives - count)
            filled in
      let went : next.file place ≡ file place = ground (arith, rest, kept) in
      ground
        (arith, written-outside bytes offset count file next (turns rounds).write place out went)

  -- Without an error, the places of a range have the body's bytes, and the calls add up.
  abbrev Copies : ℕ → ℕ → Copied → Type 0
  Copies offset remaining c =
      c.error ≡ none
      → ((place : ℕ) → offset ≤ place → place < offset + remaining → c.file place ≡ bytes place)
        × (total_of c.calls ≡ remaining)

  written-Copies :
      (w : Write) (offset count remaining : ℕ) (file : Content) (next : Copied)
      → count ≤ remaining
      → Copies (offset + count) (remaining - count) next
      → ((place : ℕ)
          → place < offset + count
          → next.file place ≡ write_range bytes offset count file place)
      → Copies offset remaining (written w bytes offset count file next)
  written-Copies (broken n) offset count remaining file next h k l e = absurd (cc)
  written-Copies (short n) offset count remaining file next h k l e = absurd (cc)
  written-Copies whole offset count remaining file next h k l e = (
    λ place from to.
        ground (arith, (k e).0 place, l place, write_range-inside bytes offset count file place),
    omega (arith, (k e).1),
  )

  -- The rounds suffice.
  pub copy_body-Copies :
      (rounds offset remaining arrives : ℕ) (file : Content)
      → remaining ≤ rounds
      → Copies offset remaining (copy_body turns bytes rounds offset remaining arrives file)
  unfolding copy_body
  copy_body-Copies zero offset remaining arrives file h =
      λ e. ((λ place a b. absurd (omega arith)), omega arith)
  copy_body-Copies (suc rounds) offset remaining arrives file h =
      let want = min download_buffer_size remaining in
      let count = min want arrives in
      let filled = write_range bytes offset count file in
      let rest =
        copy_body turns bytes rounds (offset + count) (remaining - count) (arrives - count)
          filled in
      let P = Copies offset remaining in
      if_elim P (remaining == 0)
        (λ z e. ((λ place a b. absurd (ground (arith, z))), ground (arith, z)))
        (λ z.
          if_elim P (count == 0) (λ _ e. absurd (cc))
            (λ c.
              if_elim P (turns rounds).refuses (λ _ e. absurd (cc))
                (λ _.
                  written-Copies (turns rounds).write offset count remaining file _ (omega arith)
                    (if_elim (Copies (offset + count) (remaining - count)) (ltb count want)
                      (λ _ e. absurd (cc))
                      (λ _.
                        copy_body-Copies rounds (offset + count) (remaining - count)
                          (arrives - count) filled (ground (arith, z, c))))
                    (λ place to.
                      if_elim (λ (x : Copied). x.file place ≡ filled place) (ltb count want)
                        (λ _. refl)
                        (λ _.
                          copy_body-outside rounds (offset + count) (remaining - count)
                            (arrives - count) filled place (inl to))))))

  -- A place that has the body's byte keeps it, and the places that the calls count have it.
  abbrev Writes : ℕ → Content → Copied → Type 0
  Writes offset file c =
      (place : ℕ)
      → (file place ≡ bytes place) ⊎ ((offset ≤ place) × (place < offset + total_of c.calls))
      → c.file place ≡ bytes place

  written-Writes :
      (w : Write) (offset count : ℕ) (file : Content) (next : Copied)
      → Writes (offset + count) (write_range bytes offset count file) next
      → Writes offset file (written w bytes offset count file next)
  written-Writes whole offset count file next h place k =
      h place (ground (arith, write_range-inside bytes offset count file place))
  written-Writes (broken n) offset count file next h place k =
      ground (arith, write_range-inside bytes offset (min n count) file place)
  written-Writes (short n) offset count file next h place k =
      ground (arith, write_range-inside bytes offset (min n count) file place)

  stopped-Writes :
      (offset : ℕ) (file : Content) (e : Option FetchError) → Writes offset file (stopped e file)
  stopped-Writes offset file e place k = ground arith

  pub copy_body-Writes :
      (rounds offset remaining arrives : ℕ) (file : Content)
      → Writes offset file (copy_body turns bytes rounds offset remaining arrives file)
  unfolding copy_body
  copy_body-Writes zero offset remaining arrives file = stopped-Writes offset file none
  copy_body-Writes (suc rounds) offset remaining arrives file =
      let want = min download_buffer_size remaining in
      let count = min want arrives in
      let filled = write_range bytes offset count file in
      let P = Writes offset file in
      if_elim P (remaining == 0) (λ _. stopped-Writes offset file none)
        (λ _.
          if_elim P (count == 0) (λ _. stopped-Writes offset file (some FetchError.incomplete))
            (λ _.
              if_elim P (turns rounds).refuses
                (λ _. stopped-Writes offset file (some FetchError.rate_refused))
                (λ _. written-Writes (turns rounds).write offset count file _ (
                  if_elim (Writes (offset + count) filled) (ltb count want)
                    (λ _. stopped-Writes (offset + count) filled (some FetchError.incomplete))
                    (λ _.
                      copy_body-Writes rounds (offset + count) (remaining - count) (arrives - count)
                        filled)))))
