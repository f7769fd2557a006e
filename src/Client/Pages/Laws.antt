-- ===== src/Client/Pages/Laws.antt =====
-- The paging loop against a server that has pages: it fetches each page once and in order, up to
-- the first empty one, or up to the cap.
use xero_visma_v.Base.{
  ℕ, zero, suc, ◌+◌, ◌-◌, ◌%◌, ◌^◌, ◌≤◌, ◌<◌, ◌≡◌, refl, ap, subst, ◌≢◌, Option, some, List, [],
  ◌∷◌, ◌++◌, append_assoc, append-nil, Result, ok, length, arith,
}
use xero_visma_v.Errors.{Error}
use xero_visma_v.Client.Http.{World, Run}
use xero_visma_v.Client.Pages.{
  hit_max_pages_cap, ended_on_empty_page, PaginationOutcome, should_stop_page_pagination, u32_max,
  pages_loop,
}

-- The items in a row answer the pages from `p` on.
abbrev pub Covers {ℓ κ} : {X : Type ℓ} → (ℕ → X → Type κ) → ℕ → List X → Type κ
Covers R p [] = Unit
Covers R p (x ∷ xs) = R p x × Covers R (p + 1) xs

abbrev pub all_items {ℓ κ} : {X : Type ℓ} {A : Type κ} → (X → List A) → List X → List A
all_items items [] = []
all_items items (x ∷ xs) = items x ++ all_items items xs

-- `get` returns a page for every number and keeps the worlds that are `Good`; `count` is the size
-- of each page.
pub record Serves {ℓ κ} {X : Type ℓ} (get : ℕ → Run X) (records : X → ℕ) (count : ℕ → ℕ)
    (R : ℕ → X → Type κ) (Good : World → Type 0) : Type (ℓ ⊔ κ) where
  pub page : (p : ℕ) (w : World) → Good w → X
  pub after : (p : ℕ) (w : World) → Good w → World
  pub returns : (p : ℕ) (w : World) (g : Good w) → get p w ≡ some (ok (page p w g), after p w g)
  pub good_after : (p : ℕ) (w : World) (g : Good w) → Good (after p w g)
  pub right : (p : ℕ) (w : World) (g : Good w) → R p (page p w g)
  pub size : (p : ℕ) (w : World) (g : Good w) → records (page p w g) ≡ count p

-- What a loop that ran from page `first` returned.
pub record Fetched {ℓ κ μ} {X : Type ℓ} {A : Type κ} (items : X → List A) (R : ℕ → X → Type μ)
    (Good : World → Type 0) (first many : ℕ) (all : List A) (outcome : PaginationOutcome)
    (r : Option (Result Error (List A × PaginationOutcome) × World)) : Type (ℓ ⊔ κ ⊔ μ) where
  pub pages : List X
  pub last : World
  pub returned : r ≡ some (ok (all ++ all_items items pages, outcome), last)
  pub covers : Covers R first pages
  pub many_pages : length pages ≡ many
  pub good_last : Good last

module _ {ℓ κ μ} {X : Type ℓ} {A : Type κ} (get : ℕ → Run X) (items : X → List A) (records : X → ℕ)
    (cap : ℕ) (count : ℕ → ℕ) (R : ℕ → X → Type μ) (Good : World → Type 0)
    (S : Serves get records count R Good) where
  loop_step :
      (fuel page : ℕ) (all : List A) (w : World) (g : Good w)
      → page ≤ cap
      → count page ≢ 0
      → pages_loop get items records cap (suc fuel) page all w
        ≡ pages_loop get items records cap fuel
            ((page + 1) % 2 ^ 32)
            (all ++ items (S.page page w g))
            (S.after page w g)
  unfolding pages_loop should_stop_page_pagination
  loop_step fuel page all w g le full = ground (arith, S.returns page w g, S.size page w g)

  loop_end :
      (fuel page : ℕ) (all : List A) (w : World) (g : Good w)
      → page ≤ cap
      → count page ≡ 0
      → pages_loop get items records cap (suc fuel) page all w
        ≡ some (
          ok (
            all ++ items (S.page page w g),
            record { pages_fetched = page - 1; termination = ended_on_empty_page },
          ),
          S.after page w g,
        )
  unfolding pages_loop should_stop_page_pagination
  loop_end fuel page all w g le empty = ground (arith, S.returns page w g, S.size page w g)

  loop_cap :
      (fuel page : ℕ) (all : List A) (w : World)
      → cap < page
      → pages_loop get items records cap (suc fuel) page all w
        ≡ some (ok (all, record { pages_fetched = page - 1; termination = hit_max_pages_cap }), w)
  unfolding pages_loop
  loop_cap fuel page all w lt = ground arith

  -- The list of one round in front of the later ones.
  more :
      (page many : ℕ) (all : List A) (outcome : PaginationOutcome) (w : World) (g : Good w)
      → (r : Option (Result Error (List A × PaginationOutcome) × World))
      → Fetched items R Good (page + 1) many (all ++ items (S.page page w g)) outcome r
      → Fetched items R Good page (suc many) all outcome r
  more page many all outcome w g r f = record {
    pages = S.page page w g ∷ f.pages;
    last = f.last;
    returned =
        rw (← append_assoc all (items (S.page page w g)) (all_items items f.pages)) f.returned;
    covers = (S.right page w g, f.covers);
    many_pages = ap suc f.many_pages;
    good_last = f.good_last;
  }

  pub loop_until_empty :
      (n fuel page : ℕ) (all : List A) (w : World)
      → Good w
      → n < fuel
      → page + n ≤ cap
      → cap ≤ u32_max
      → ((i : ℕ) → i < n → count (page + i) ≢ 0)
      → count (page + n) ≡ 0
      → Fetched items R Good page
          (suc n)
          all
          (record { pages_fetched = page + n - 1; termination = ended_on_empty_page })
          (pages_loop get items records cap fuel page all w)
  loop_until_empty n zero page all w g lt le max full empty = absurd (omega arith)
  loop_until_empty zero (suc fuel) page all w g lt le max full empty =
      let e : page + 0 ≡ page = omega arith in
      let none_left = loop_end fuel page all w g (omega arith) (rw e at empty) in
      record {
        pages = S.page page w g ∷ [];
        last = S.after page w g;
        returned = rw (e, append-nil (items (S.page page w g))) none_left;
        covers = (S.right page w g, tt);
        many_pages = refl;
        good_last = S.good_after page w g;
      }
  loop_until_empty (suc n) (suc fuel) page all w g lt le max full empty =
      let e : page + suc n ≡ page + 1 + n = omega arith in
      let shift : (i : ℕ) → page + suc i ≡ page + 1 + i = λ i. omega arith in
      let wrap : (page + 1) % 2 ^ 32 ≡ page + 1 = omega arith in
      let here : count page ≢ 0 = subst (λ k. count k ≢ 0) (omega arith) (full 0 (omega arith)) in
      let rest =
        loop_until_empty n fuel (page + 1) (all ++ items (S.page page w g)) (S.after page w g)
          (S.good_after page w g) (omega arith) (omega arith) max
          (λ i lt. subst (λ k. count k ≢ 0) (shift i) (full (suc i) (omega arith)))
          (rw e at empty) in
      let st : pages_loop get items records cap (suc fuel) page all w
          ≡ pages_loop get items records cap fuel (page + 1) (all ++ items (S.page page w g))
              (S.after page w g) =
        rw (← wrap) (loop_step fuel page all w g (omega arith) here) in
      rw (st, e) (more page (suc n) all _ w g _ rest)

  pub loop_until_cap :
      (n fuel page : ℕ) (all : List A) (w : World)
      → Good w
      → n < fuel
      → page + n ≡ cap + 1
      → cap < u32_max
      → ((i : ℕ) → i < n → count (page + i) ≢ 0)
      → Fetched items R Good page n all
          (record { pages_fetched = cap; termination = hit_max_pages_cap })
          (pages_loop get items records cap fuel page all w)
  loop_until_cap n zero page all w g lt le max full = absurd (omega arith)
  loop_until_cap zero (suc fuel) page all w g lt le max full =
      let e : page - 1 ≡ cap = omega arith in
      let over = loop_cap fuel page all w (omega arith) in
      record {
        pages = [];
        last = w;
        returned = rw append-nil (rw e at over);
        covers = tt;
        many_pages = refl;
        good_last = g;
      }
  loop_until_cap (suc n) (suc fuel) page all w g lt le max full =
      let shift : (i : ℕ) → page + suc i ≡ page + 1 + i = λ i. omega arith in
      let wrap : (page + 1) % 2 ^ 32 ≡ page + 1 = omega arith in
      let here : count page ≢ 0 = subst (λ k. count k ≢ 0) (omega arith) (full 0 (omega arith)) in
      let rest =
        loop_until_cap n fuel (page + 1) (all ++ items (S.page page w g)) (S.after page w g)
          (S.good_after page w g) (omega arith) (omega arith) max
          (λ i lt. subst (λ k. count k ≢ 0) (shift i) (full (suc i) (omega arith))) in
      let st : pages_loop get items records cap (suc fuel) page all w
          ≡ pages_loop get items records cap fuel (page + 1) (all ++ items (S.page page w g))
              (S.after page w g) =
        rw (← wrap) (loop_step fuel page all w g (omega arith) here) in
      rw st (more page n all _ w g _ rest)
