-- ===== src/Ops/Recover/Annual.antt =====
-- Annual campaigns in scripts/vps-crawl-auto-recover.py: the year of a job, and the metadata of older jobs.
use Prim.Native.String.{◌++◌ as concat}
use healtharchive_backend.Base.{
  String, Bool, Option, none, some, List, [], ◌∷◌, ◌==◌, string_eq, if◌then◌else◌, leb,
}
use healtharchive_backend.Base.Int.{ℤ, pos, leb_ℤ}
use healtharchive_backend.Base.Texts.{str_ℤ}
use healtharchive_backend.Json.{Fields, null, int, str, get_field}
use healtharchive_backend.Ops.{JobRow}
use healtharchive_backend.Ops.Recover.Host.{Host, fold_value, int_or_zero, is_number}
use healtharchive_backend.Ops.Recover.Fixes.{Fix, run_fixes, writes_any, default_to}

-- The year of the first text that has one from 1970 on.
unfoldable pub first_year : Host → List String → Option ℤ
first_year h [] = none
first_year h (text ∷ rest) =
    let later = first_year h rest in
    elim (h.suffix_year text) [
      | none ↦ later
      | some year ↦ if leb 1970 year then some (pos year) else later
    ]

abbrev pub dir_text : Option String → String
dir_text none = ""
dir_text (some dir) = dir

-- The texts that may show the year of a job.
unfoldable pub year_texts : Host → JobRow → List String
year_texts h j =
    let dir = dir_text j.output_dir in
    j.name ∷ (dir ∷ (if dir == "" then [] else h.path_name dir ∷ []))

unfoldable pub infer_annual_campaign_year : Host → JobRow → Fields → Option ℤ
unfolding first_year year_texts int_or_zero
infer_annual_campaign_year h j cfg =
    let year = int_or_zero h (get_field "campaign_year" null cfg) in
    if leb_ℤ (pos 1970) year then some year else first_year h (year_texts h j)

abbrev pub kind_of : Host → Fields → String
kind_of h cfg = fold_value h (get_field "campaign_kind" null cfg)

-- `_ensure_annual_campaign_metadata`, as corrections of the config.
unfoldable pub metadata_fixes : Host → ℤ → List Fix
unfolding fold_value is_number
metadata_fixes h year =
    let date = concat (str_ℤ year) "-01-01" in
    record {
      key = "campaign_kind";
      decide = λ v. if fold_value h v == "annual" then none else some (str "annual");
    }
    ∷ (record {
      key = "campaign_year";
      decide = λ v. if is_number h year v then none else some (int year);
    }
        ∷ (record { key = "campaign_date"; decide = default_to (str date) }
            ∷ (record {
              key = "campaign_date_utc";
              decide = default_to (str (concat date "T00:00:00Z"));
            }
                ∷ (record { key = "scheduler_version"; decide = default_to (str "v1") } ∷ []))))

-- The row with its metadata, and whether it changed.
unfoldable pub ensure_annual_campaign_metadata : Host → ℤ → JobRow → JobRow × Bool
unfolding metadata_fixes
ensure_annual_campaign_metadata h year j = (
  record j { config = run_fixes (metadata_fixes h year) j.config },
  writes_any (metadata_fixes h year) j.config,
)
