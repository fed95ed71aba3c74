-- ===== src/Contract/Stored.antt =====
-- The options of src/ha_backend/archive_contract.py after a round trip through the database.
use healtharchive_backend.Base.{
  String, false, ◌≡◌, refl, ap, ◌∙◌, Option, none, some, ◌==◌, string_eq, if◌then◌else◌, arith, inl,
  inr, Bool-cases, Option-cases, Option-cases,
}
use mathlib.Core.Path.{subst}
use healtharchive_backend.Base.Int.{pos}
use healtharchive_backend.Json.{
  Json, Fields, null, bool, int, float, str, arr, obj, end, field, get_field,
}
use healtharchive_backend.Contract.{
  Python, IsPython, ArchiveToolOptions, set_value, clean_text, config_value, to_dict, as_config,
  options_of, from_dict, truthy, valid, is_blank, validate_images, strip_or_empty,
  validate_tool_options,
}

-- The value, or another one where it is missing.
abbrev present : Json → Json → Json
present null other = other
present v other = v

present-null : (v : Json) → present v null ≡ v
present-null null = refl
present-null (bool b) = refl
present-null (int n) = refl
present-null (float t) = refl
present-null (str s) = refl
present-null (arr xs) = refl
present-null (obj fs) = refl

get-set_value :
    (k key : String) (v : Json) (rest : Fields)
    → get_field k null (set_value key v rest)
      ≡ (if key == k then present v (get_field k null rest) else get_field k null rest)
unfolding get_field set_value
get-set_value k key null rest = elim (Bool-cases (key == k)) [
  | inl same ↦ rw same refl
  | inr other ↦ rw other refl
]
get-set_value k key (bool b) rest = refl
get-set_value k key (int n) rest = refl
get-set_value k key (float t) rest = refl
get-set_value k key (str s) rest = refl
get-set_value k key (arr xs) rest = refl
get-set_value k key (obj fs) rest = refl

get-field :
    (k key : String) (d v : Json) (rest : Fields)
    → get_field k d (field key v rest) ≡ (if key == k then v else get_field k d rest)
unfolding get_field
get-field k key d v rest = refl

get-end : (k : String) (d : Json) → get_field k d end ≡ d
unfolding get_field
get-end k d = refl

-- What the store keeps of the options: images without blanks, no empty config.
abbrev pub stored : Python → ArchiveToolOptions → ArchiveToolOptions
stored py o = record o {
  docker_image = clean_text py o.docker_image;
  docker_shm_size = clean_text py o.docker_shm_size;
  browsertrix_config = as_config (config_value o.browsertrix_config);
}

ruleset lookups = (get-field, get-set_value, get-end, present-null)

options_of-to_dict :
    (py : Python) (laws : IsPython py) (o : ArchiveToolOptions)
    → options_of py (to_dict py o) o.initial_workers ≡ stored py o
unfolding options_of to_dict truthy
options_of-to_dict py laws o =
    simp (get-field, get-set_value, get-end, present-null, laws.to_text-str)

-- Options that are written to the database and read again are the same, but that the image and the size of
-- the shared memory are stripped, or missing if they are blank, and that an empty config is missing.
pub from_dict-to_dict :
    (py : Python)
    → IsPython py
    → (o : ArchiveToolOptions) → from_dict py (to_dict py o) ≡ some (stored py o)
unfolding from_dict
from_dict-to_dict py laws o = rw (workers, from_dict) (ap some (options_of-to_dict py laws o))
  where
    workers :
        py.to_int (get_field "initial_workers" (int (pos 1)) (to_dict py o))
        ≡ some o.initial_workers
    workers = unfold to_dict in simp (get-field, laws.to_int-int)

clean_text_of_blank :
    (py : Python)
    → IsPython py
    → (text : String)
    → is_blank py (if py.strip text == "" then null else str (py.strip text)) ≡ false
unfolding is_blank
clean_text_of_blank py laws text = elim (Bool-cases (py.strip text == "")) [
  | inl blank ↦ rw blank refl
  | inr kept ↦ rw kept (rw (laws.to_text-str (py.strip text)) (rw (laws.strip_idem text) kept))
]

is_blank-clean_text :
    (py : Python) → IsPython py → (v : Json) → is_blank py (clean_text py v) ≡ false
unfolding clean_text
is_blank-clean_text py laws null = unfold is_blank in refl
is_blank-clean_text py laws (bool b) = clean_text_of_blank py laws (py.to_text (bool b))
is_blank-clean_text py laws (int n) = clean_text_of_blank py laws (py.to_text (int n))
is_blank-clean_text py laws (float t) = clean_text_of_blank py laws (py.to_text (float t))
is_blank-clean_text py laws (str s) = clean_text_of_blank py laws (py.to_text (str s))
is_blank-clean_text py laws (arr xs) = clean_text_of_blank py laws (py.to_text (arr xs))
is_blank-clean_text py laws (obj fs) = clean_text_of_blank py laws (py.to_text (obj fs))

validate-stored :
    (py : Python)
    → IsPython py
    → (o : ArchiveToolOptions) → validate_tool_options py o ≡ valid
    → validate_tool_options py (stored py o) ≡ valid
unfolding validate_tool_options validate_images
validate-stored py laws o h =
    let image = is_blank-clean_text py laws o.docker_image in
    let size = is_blank-clean_text py laws o.docker_shm_size in
    elim (Bool-cases o.enable_vpn_rotation) [
      | inr off ↦ ground arith
      | inl rotates ↦ elim (Option-cases (strip_or_empty py o.vpn_connect_command)) [
        | inl raised ↦ ground arith
        | inr (text, given) ↦ ground arith
      ]
    ]

clean_text_of_clean :
    (py : Python)
    → IsPython py
    → (text : String)
    → let kept = if py.strip text == "" then null else str (py.strip text) in
      clean_text py kept ≡ kept
unfolding clean_text
clean_text_of_clean py laws text = elim (Bool-cases (py.strip text == "")) [
  | inl blank ↦ rw blank refl
  | inr kept ↦
      rw kept (rw (laws.to_text-str (py.strip text)) (rw (laws.strip_idem text) (rw kept refl)))
]

clean_text_idem :
    (py : Python) → IsPython py → (v : Json) → clean_text py (clean_text py v) ≡ clean_text py v
unfolding clean_text
clean_text_idem py laws null = refl
clean_text_idem py laws (bool b) = clean_text_of_clean py laws (py.to_text (bool b))
clean_text_idem py laws (int n) = clean_text_of_clean py laws (py.to_text (int n))
clean_text_idem py laws (float t) = clean_text_of_clean py laws (py.to_text (float t))
clean_text_idem py laws (str s) = clean_text_of_clean py laws (py.to_text (str s))
clean_text_idem py laws (arr xs) = clean_text_of_clean py laws (py.to_text (arr xs))
clean_text_idem py laws (obj fs) = clean_text_of_clean py laws (py.to_text (obj fs))

config_idem :
    (c : Option Fields)
    → as_config (config_value (as_config (config_value c))) ≡ as_config (config_value c)
unfolding as_config config_value
config_idem none = refl
config_idem (some end) = refl
config_idem (some (field k v rest)) = refl

stored_idem :
    (py : Python) → IsPython py → (o : ArchiveToolOptions) → stored py (stored py o) ≡ stored py o
stored_idem py laws o = simp (clean_text_idem py laws, config_idem)

-- A text without the blanks around it; null where nothing is left, and for null.
abbrev pub without_blanks : Python → Json → Json
without_blanks py null = null
without_blanks py v = if py.strip (py.to_text v) == "" then null else str (py.strip (py.to_text v))

abbrev pub without_empty : Option Fields → Option Fields
without_empty none = none
without_empty (some end) = none
without_empty (some (field k v rest)) = some (field k v rest)

-- The options, with the image and the size of the shared memory without blanks and without an empty config.
abbrev pub kept : Python → ArchiveToolOptions → ArchiveToolOptions
kept py o = record o {
  docker_image = without_blanks py o.docker_image;
  docker_shm_size = without_blanks py o.docker_shm_size;
  browsertrix_config = without_empty o.browsertrix_config;
}

clean_text_lem : (py : Python) (v : Json) → clean_text py v ≡ without_blanks py v
unfolding clean_text
clean_text_lem py null = refl
clean_text_lem py (bool b) = refl
clean_text_lem py (int n) = refl
clean_text_lem py (float t) = refl
clean_text_lem py (str s) = refl
clean_text_lem py (arr xs) = refl
clean_text_lem py (obj fs) = refl

as_config-config_value : (c : Option Fields) → as_config (config_value c) ≡ without_empty c
unfolding as_config config_value
as_config-config_value none = refl
as_config-config_value (some end) = refl
as_config-config_value (some (field k v rest)) = refl

stored_lem : (py : Python) (o : ArchiveToolOptions) → stored py o ≡ kept py o
stored_lem py o = simp (
  clean_text_lem py o.docker_image,
  clean_text_lem py o.docker_shm_size,
  as_config-config_value o.browsertrix_config,
)

-- Options that pass the validation are stored, and what is read of them again are the same options, but that the
-- image and the size of the shared memory are without the blanks around them, or missing if nothing is left, and
-- that an empty config is missing. They pass the validation too and are stored as they are: they do not change
-- on a second way to the database.
pub from_dict-valid :
    (py : Python)
    → IsPython py
    → (o : ArchiveToolOptions) → validate_tool_options py o ≡ valid
    → (from_dict py (to_dict py o) ≡ some (kept py o))
      × (validate_tool_options py (kept py o) ≡ valid)
      × (from_dict py (to_dict py (kept py o)) ≡ some (kept py o))
from_dict-valid py laws o h =
    subst
      (λ (p : ArchiveToolOptions).
        (from_dict py (to_dict py o) ≡ some p)
        × (validate_tool_options py p ≡ valid)
        × (from_dict py (to_dict py p) ≡ some p))
      (stored_lem py o)
      (
        from_dict-to_dict py laws o,
        validate-stored py laws o h,
        from_dict-to_dict py laws (stored py o) ∙ ap some (stored_idem py laws o),
      )
