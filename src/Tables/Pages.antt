-- ===== src/Tables/Pages.antt =====
-- frontend/src/tables/list-table.tsx: the pages of a table.
use tornjak.Prelude.{ℕ, ◌-◌, ◌*◌, ◌&&◌, not, List, take, drop, ◌==◌, if◌then◌else◌}

pub record State : Type 0 where
  pub page : ℕ
  pub page_size : ℕ

abbrev pub initial : State
initial = record { page = 1; page_size = 10 }

unfoldable pub on_change : State → State → State
on_change e s = if not (e.page == 0) && not (e.page_size == 0) then e else s

-- `xs.slice(a, b)` for indices that are not negative.
abbrev pub slice {ℓ} : {A : Type ℓ} → List A → ℕ → ℕ → List A
slice xs a b = take (b - a) (drop a xs)

-- The rows of the page.
unfoldable pub page_rows {ℓ} : {A : Type ℓ} → State → List A → List A
page_rows s rows = slice rows ((s.page - 1) * s.page_size) (s.page * s.page_size)
