-- ===== src/DnsSender/Main/Publishes.antt =====
-- src/dns_sender.cpp: what a session shows and writes.
use mathlib.Core.List.{append_assoc, append-nil}
use dnsmeter.Base.{ℕ, ◌≡◌, refl, sym, ap, ◌∙◌, List, [], ◌∷◌, ◌++◌, map, Option, none, some}
use mathlib.Core.Option
use dnsmeter.DnsSender.{Results, get_results}
use dnsmeter.DnsSender.Report.{
  Pool, Line, row, csv_row, Presented, save_results_to_csv, present_results,
}
use dnsmeter.DnsSender.Main.{Output, report}

-- The results that follow `before` on the screen and in the CSV file.
pub record Publishes (runtime : ℕ) (before : Output) (rs : List Results) (after : Output)
    : Type 0 where
  pub presented : after.presented ≡ before.presented ++ map (present_results runtime) rs
  pub csv :
      after.csv
      ≡ Option.map
          (λ (ls : List Line). ls ++ map (λ (r : Results). row (csv_row runtime r)) rs)
          before.csv

-- Rows behind rows, where the file is open.
rows-all :
    (before : Option (List Line)) (xs ys : List Line)
    → Option.map (λ (ls : List Line). ls ++ ys) (Option.map (λ (ls : List Line). ls ++ xs) before)
      ≡ Option.map (λ (ls : List Line). ls ++ (xs ++ ys)) before
rows-all none xs ys = refl
rows-all (some ls) xs ys = ap some (append_assoc ls xs ys)

rows-none :
    (before : Option (List Line)) → before ≡ Option.map (λ (ls : List Line). ls ++ []) before
rows-none none = refl
rows-none (some ls) = ap some (sym (append-nil ls))

save-row :
    (runtime : ℕ) (r : Results) (before : Option (List Line))
    → save_results_to_csv runtime r before
      ≡ Option.map (λ (ls : List Line). ls ++ (row (csv_row runtime r) ∷ [])) before
unfolding save_results_to_csv
save-row runtime r none = refl
save-row runtime r (some ls) = refl

pub Publishes-nothing : (runtime : ℕ) (out : Output) → Publishes runtime out [] out
Publishes-nothing runtime out = record {
  presented = sym (append-nil out.presented);
  csv = rows-none out.csv;
}

pub Publishes-all :
    (runtime : ℕ) (before next after : Output) (r : Results) (rs : List Results)
    → Publishes runtime before (r ∷ []) next
    → Publishes runtime next rs after
    → Publishes runtime before (r ∷ rs) after
Publishes-all runtime before next after r rs one rest = record {
  presented =
      rest.presented
      ∙ ap (λ (ps : List Presented). ps ++ map (present_results runtime) rs) one.presented
      ∙ append_assoc before.presented (present_results runtime r ∷ [])
          (map (present_results runtime) rs);
  csv =
      rest.csv
      ∙ ap
          (Option.map (λ (ls : List Line). ls ++ map (λ (x : Results). row (csv_row runtime x)) rs))
          one.csv
      ∙ rows-all before.csv (row (csv_row runtime r) ∷ [])
          (map (λ (x : Results). row (csv_row runtime x)) rs);
}

pub report-Publishes :
    (runtime : ℕ) (before : Results) (pool : Pool) (out : Output)
    → let (r, next) = report runtime before pool out in
      (r ≡ get_results before pool.threads pool.receiver) × Publishes runtime out (r ∷ []) next
unfolding report
report-Publishes runtime before pool out = (
  refl,
  record {
    presented = refl;
    csv = save-row runtime (get_results before pool.threads pool.receiver) out.csv;
  },
)
