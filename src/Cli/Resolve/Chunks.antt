-- ===== src/Cli/Resolve/Chunks.antt =====
-- `backfill_chunks` of core/crates/xero-cli/src/resolve.rs: the windows of a backfill.
use xero_visma_v.Base.{
  ℕ, zero, suc, ◌+◌, ◌≤◌, ◌<◌, ◌≡◌, refl, sym, ap, ◌∙◌, subst, ◌&&◌, none, some, List, [], ◌∷◌,
  ◌++◌, append_assoc, append-nil, ◌⊎◌, inl, inr, leb, leb→le, le→leb, max, if◌then◌else◌, arith,
  Bool-cases, Option-cases,
}
use xero_visma_v.Foreign.{Chrono}
use xero_visma_v.Foreign.Laws.{IsCalendar, HasLast}
use xero_visma_v.Cli.Resolve.{next_start, chunk_end, chunks_from, backfill_chunks}

module _ (C : Chrono) where
  -- Windows that follow one another without a gap from the day `n` to the day `to`.
  pub data IsTiling : ℕ → ℕ → List (C.Date × C.Date) → Type 0 where
    done : {n to : ℕ} → to < n → IsTiling n to []
    chunk :
        {n to : ℕ} {rest : List (C.Date × C.Date)} (from last : C.Date)
        → C.day from ≡ n
        → n ≤ C.day last
        → C.day last ≤ to
        → IsTiling (C.day last + 1) to rest
        → IsTiling n to ((from, last) ∷ rest)

  -- How many of the windows hold the day `d`.
  abbrev pub windows_with : ℕ → List (C.Date × C.Date) → ℕ
  windows_with d [] = 0
  windows_with d ((from, last) ∷ rest) =
      (if leb (C.day from) d && leb d (C.day last) then 1 else 0) + windows_with d rest

  IsTiling-past :
      {n to : ℕ} {rest : List (C.Date × C.Date)} (m : ℕ)
      → to < n
      → to < m
      → IsTiling n to rest
      → IsTiling m to rest
  IsTiling-past m later past (done h) = done past
  IsTiling-past m later past (chunk from last at least most rest) = absurd (omega arith)

  cover :
      {n to : ℕ} {chunks : List (C.Date × C.Date)} (d : ℕ)
      → IsTiling n to chunks
      → windows_with d chunks ≡ (if leb n d && leb d to then 1 else 0)
  cover d (done h) = ground arith
  cover d (chunk from last at least most rest) = ground (arith, at, least, most, cover d rest)

  module _ (L : IsCalendar C) where
    next_start_later :
        (cursor : C.Date) (months : ℕ)
        → C.day cursor < C.day C.max_date
        → C.day cursor < C.day (next_start C cursor months)
    unfolding next_start
    next_start_later cursor months h =
        elim (Option-cases (C.checked_add_months cursor (max months 1))) [
          | inl none_left ↦ rw none_left h
          | inr (next, found) ↦
              rw found (L.months_later cursor next (max months 1) (omega arith) found)
        ]

    chunk_end_lem :
        (next to : C.Date)
        → 1 ≤ C.day next
        → (C.day (chunk_end C next to) ≤ C.day to)
          × ((C.day (chunk_end C next to) + 1 ≡ C.day next)
              ⊎ ((C.day (chunk_end C next to) ≡ C.day to) × (C.day to < C.day next)))
    unfolding chunk_end
    chunk_end_lem next to h =
        let (last, found, back) = L.sub_days_some next 1 h in ground (arith, found, back)

    tile :
        (fuel : ℕ) (cursor to : C.Date) (months : ℕ) (chunks : List (C.Date × C.Date))
        → 1 ≤ fuel
        → C.day to + 1 < fuel + C.day cursor
        → C.day to < C.day C.max_date
        → (rest : List (C.Date × C.Date)) × (chunks_from C fuel cursor to months chunks
            ≡ some (chunks ++ rest))
          × IsTiling (C.day cursor) (C.day to) rest
    unfolding chunks_from
    tile zero cursor to months chunks positive enough inside = absurd (omega arith)
    tile (suc fuel) cursor to months chunks positive enough inside =
        elim (Bool-cases (leb (C.day cursor) (C.day to))) [
          | inl going ↦
              let within : C.day cursor ≤ C.day to = leb→le (C.day cursor) (C.day to) going in
              let next = next_start C cursor months in
              let last = chunk_end C next to in
              let later = next_start_later cursor months (omega arith) in
              let (most, step) = chunk_end_lem next to (omega arith) in
              let (rest, found, tiles) =
                tile fuel next to months (chunks ++ (cursor, last) ∷ []) (omega arith) (omega arith)
                  inside in
              (
                (cursor, last) ∷ rest,
                rw going (found ∙ ap some (append_assoc chunks ((cursor, last) ∷ []) rest)),
                chunk cursor last refl (omega (arith, step)) most (elim step [
                  | inl follows ↦ subst (λ n. IsTiling n (C.day to) rest) (sym follows) tiles
                  | inr (ends, past) ↦ IsTiling-past (C.day last + 1) past (omega arith) tiles
                ]),
              )
          | inr past ↦ ([], rw past (ap some (sym (append-nil chunks))), done (ground arith))
        ]

    -- For a last day before the greatest date, and rounds enough for each day from the first to
    -- the last and one more, `backfill_chunks` ends, its chunks follow one another without a gap
    -- or an overlap from the first day to the last, oldest first, and a day lies in exactly one
    -- chunk if it is in the range and in none otherwise.
    pub backfill_chunks-IsTiling :
        (fuel : ℕ) (from to : C.Date) (months : ℕ)
        → 1 ≤ fuel
        → C.day to + 1 < fuel + C.day from
        → C.day to < C.day C.max_date
        → (chunks : List (C.Date × C.Date)) × (backfill_chunks C fuel from to months ≡ some chunks)
          × IsTiling (C.day from) (C.day to) chunks
          × ((d : ℕ)
              → windows_with d chunks ≡ (if leb (C.day from) d && leb d (C.day to) then 1 else 0))
    unfolding backfill_chunks
    backfill_chunks-IsTiling fuel from to months positive enough inside =
        let (chunks, found, tiles) = tile fuel from to months [] positive enough inside in
        (chunks, found, tiles, λ d. cover d tiles)

  module _ (M : HasLast C) where
    never_ends :
        (fuel : ℕ) (cursor : C.Date) (months : ℕ) (chunks : List (C.Date × C.Date))
        → chunks_from C fuel cursor C.max_date months chunks ≡ none
    unfolding chunks_from
    never_ends zero cursor months chunks = refl
    never_ends (suc fuel) cursor months chunks =
        rw (le→leb (C.day cursor) (C.day C.max_date) (M.last cursor)) (
          never_ends fuel (next_start C cursor months) months
            (chunks ++ (cursor, chunk_end C (next_start C cursor months) C.max_date) ∷ []))

    -- A backfill up to the greatest date has no end: no number of rounds is enough.
    pub backfill_chunks-endless :
        (fuel : ℕ) (from : C.Date) (months : ℕ)
        → backfill_chunks C fuel from C.max_date months ≡ none
    unfolding backfill_chunks
    backfill_chunks-endless fuel from months = never_ends fuel from months []
