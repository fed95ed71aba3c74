-- ===== src/Contract/JobConfig.antt =====
-- src/ha_backend/archive_contract.py: ArchiveJobConfig, the JSON value of ArchiveJob.config.
use healtharchive_backend.Base.{String, ◌≡◌, refl, Option, none, some, List, [], ◌∷◌, if◌then◌else◌}
use healtharchive_backend.Json.{
  Json, Items, Fields, null, str, arr, obj, nil, cons, end, field, get_field, strings,
}
use healtharchive_backend.Contract.{Python, ArchiveToolOptions, truthy, to_dict, from_dict}

pub record ArchiveJobConfig : Type 0 where
  pub seeds : List String
  pub zimit_passthrough_args : List String
  pub tool_options : ArchiveToolOptions

unfoldable pub job_to_dict : Python → ArchiveJobConfig → Fields
job_to_dict py c = field "seeds" (arr (strings c.seeds)) (
    field "zimit_passthrough_args" (arr (strings c.zimit_passthrough_args))
      (field "tool_options" (obj (to_dict py c.tool_options)) end))

-- The items, if all of them are texts.
unfoldable pub texts : Items → Option (List String)
texts nil = some []
texts (cons (str s) rest) = elim (texts rest) [ none ↦ none | some others ↦ some (s ∷ others) ]
texts (cons _ rest) = none

-- `list(v or [])` for a list of texts; `none` for any other value, which is not modelled.
unfoldable pub text_list : Python → Json → Option (List String)
unfolding texts
text_list py (arr items) = texts items
text_list py v = if truthy py v then none else some []

-- `v or {}` for a dict; `none` for any other value, which has no `get`.
unfoldable pub fields_or_empty : Python → Json → Option Fields
fields_or_empty py (obj fields) = some fields
fields_or_empty py v = if truthy py v then none else some end

unfoldable pub job_from_dict : Python → Fields → Option ArchiveJobConfig
unfolding text_list fields_or_empty
job_from_dict py d = elim (text_list py (get_field "seeds" null d)) [
  | none ↦ none
  | some seeds ↦ elim (text_list py (get_field "zimit_passthrough_args" null d)) [
    | none ↦ none
    | some args ↦ elim (fields_or_empty py (get_field "tool_options" null d)) [
      | none ↦ none
      | some fields ↦ elim (from_dict py fields) [
        | none ↦ none
        | some options ↦
            some (record { seeds = seeds; zimit_passthrough_args = args; tool_options = options })
      ]
    ]
  ]
]

pub texts-strings : (xs : List String) → texts (strings xs) ≡ some xs
unfolding texts strings
texts-strings [] = refl
texts-strings (x ∷ xs) = rw (texts-strings xs, texts) refl

-- A config is read as it was written, with the options that `from_dict` reads.
pub job_from_dict-job_to_dict :
    (py : Python) (c : ArchiveJobConfig) {options : ArchiveToolOptions}
    → from_dict py (to_dict py c.tool_options) ≡ some options
    → job_from_dict py (job_to_dict py c) ≡ some (record c { tool_options = options })
unfolding job_from_dict job_to_dict get_field
job_from_dict-job_to_dict py c h =
    rw (texts-strings c.seeds, job_from_dict)
      (rw (texts-strings c.zimit_passthrough_args, job_from_dict) (rw (h, job_from_dict) refl))
