-- ===== src/Tables/Laws/PageLaws.antt =====
-- The pages of a table hold its rows, each once and in order.
use tornjak.Prelude.{
  ℕ, zero, suc, ◌+◌, ◌-◌, ◌*◌, ◌≤◌, ◌≡◌, refl, sym, ◌∙◌, ap, List, [], ◌∷◌, ◌++◌, arith, length,
  take, drop,
}
use tornjak.Tables.Pages.{State, page_rows, on_change, initial}

-- The first `k` pages, one after another.
abbrev pub first_pages {ℓ} : {A : Type ℓ} → ℕ → ℕ → List A → List A
first_pages zero size rows = []
first_pages (suc k) size rows =
    first_pages k size rows ++ page_rows (record { page = suc k; page_size = size }) rows

take-nil {ℓ} : {A : Type ℓ} (n : ℕ) → take {A = A} n [] ≡ []
take-nil zero = refl
take-nil (suc n) = refl

take-add {ℓ} :
    {A : Type ℓ} (m n : ℕ) (xs : List A) → take m xs ++ take n (drop m xs) ≡ take (m + n) xs
take-add zero n xs = ap (λ k. take k xs) (omega arith)
take-add (suc m) n [] = take-nil n ∙ sym (take-nil (suc m + n))
take-add (suc m) n (x ∷ xs) =
    let total : suc (m + n) ≡ suc m + n = omega arith in
    ap (λ l. x ∷ l) (take-add m n xs) ∙ ap (λ k. take k (x ∷ xs)) total

take-le {ℓ} : {A : Type ℓ} (n : ℕ) (xs : List A) → length (take n xs) ≤ n
take-le zero xs = omega arith
take-le (suc n) [] = omega arith
take-le (suc n) (x ∷ xs) = omega (arith, take-le n xs)

take-all {ℓ} : {A : Type ℓ} (n : ℕ) (xs : List A) → length xs ≤ n → take n xs ≡ xs
take-all zero [] h = refl
take-all zero (x ∷ xs) h = ground arith
take-all (suc n) [] h = refl
take-all (suc n) (x ∷ xs) h = ap (λ l. x ∷ l) (take-all n xs (omega arith))

-- The first `k` pages are the first `k * size` rows: no row is on two pages, and none is left out.
pub first_pages-take {ℓ} :
    {A : Type ℓ} (k size : ℕ) (rows : List A) → first_pages k size rows ≡ take (k * size) rows
unfolding page_rows
first_pages-take zero size rows = let z : 0 ≡ 0 * size = omega arith in ap (λ n. take n rows) z
first_pages-take (suc k) size rows =
    let from_ : (suc k - 1) * size ≡ k * size = ap (λ n. n * size) (omega arith) in
    let width : suc k * size - k * size ≡ size = omega arith in
    let total : k * size + size ≡ suc k * size = omega arith in
    let page : page_rows (record { page = suc k; page_size = size }) rows
        ≡ take size (drop (k * size) rows) =
      rw (from_, width) refl in
    rw (first_pages-take k size rows, page, take-add (k * size) size rows, total) refl

-- The pages of a table hold its rows, each once and in order: with as many pages as needed, one after
-- another they are the rows.
pub first_pages_all {ℓ} :
    {A : Type ℓ} (k size : ℕ) (rows : List A)
    → length rows ≤ k * size
    → first_pages k size rows ≡ rows
first_pages_all k size rows h = first_pages-take k size rows ∙ take-all (k * size) rows h

-- Whatever the pagination reports, the page shown is at least the first, of at least one row.
pub data Reach : State → Type 0 where
  start : Reach initial
  next : (e : State) {s : State} → Reach s → Reach (on_change e s)

pub Reach-pos : {s : State} → Reach s → (1 ≤ s.page) × (1 ≤ s.page_size)
unfolding on_change
Reach-pos start = (omega arith, omega arith)
Reach-pos (next e {s} r) = let (p, q) = Reach-pos r in (ground arith, ground arith)

page_width : (page size : ℕ) → 1 ≤ page → page * size - (page - 1) * size ≡ size
page_width zero size h = ground arith
page_width (suc p) size h =
    let from_ : (suc p - 1) * size ≡ p * size = ap (λ n. n * size) (omega arith) in
    let width : suc p * size - p * size ≡ size = omega arith in rw (from_, width) refl

-- Every page that the table can come to shows no more rows than its size, and the size is positive:
-- whatever the pagination reports.
pub page_rows-length_le {ℓ} :
    {A : Type ℓ} (s : State) (rows : List A)
    → Reach s
    → (length (page_rows s rows) ≤ s.page_size) × (1 ≤ s.page_size)
unfolding page_rows
page_rows-length_le s rows r =
    let (first, some_) = Reach-pos r in
    let width : s.page * s.page_size - (s.page - 1) * s.page_size ≡ s.page_size =
      page_width s.page s.page_size first in
    (rw width (take-le s.page_size (drop ((s.page - 1) * s.page_size) rows)), some_)
