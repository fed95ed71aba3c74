-- ===== src/Registry/Built.antt =====
-- What the jobs of src/ha_backend/job_registry.py find in their config when they run.
use healtharchive_backend.Base.{
  String, ◌≡◌, ◌∙◌, refl, sym, some, List, ◌++◌, arith, inl, inr, Option-cases,
}
use healtharchive_backend.Json.{Fields}
use healtharchive_backend.Contract.{
  Python, IsPython, ArchiveToolOptions, from_dict, Validity, valid, validate_tool_options,
}
use healtharchive_backend.Contract.Stored.{kept, from_dict-valid}
use healtharchive_backend.Contract.JobConfig.{
  ArchiveJobConfig, job_to_dict, job_from_dict, job_from_dict-job_to_dict,
}
use healtharchive_backend.Registry.Templates.{
  SourceJobConfig, update_fields, when_valid, build_job_config,
}

when_valid-some :
    (v : Validity) (c : Fields) {d : Fields} → when_valid v c ≡ some d → (v ≡ valid) × (c ≡ d)
unfolding when_valid
when_valid-some valid c h = (refl, grind arith)
when_valid-some _ c h = absurd (ground arith)

-- The config before its validation.
abbrev pub config_of :
    SourceJobConfig → List String → List String → ArchiveToolOptions → ArchiveJobConfig
config_of template extra_seeds extra_args options = record {
  seeds = template.default_seeds ++ extra_seeds;
  zimit_passthrough_args = template.default_zimit_passthrough_args ++ extra_args;
  tool_options = options;
}

pub build_job_config-some :
    (py : Python) (template : SourceJobConfig) (extra_seeds : List String) (overrides : Fields)
    (extra_args : List String) {options : ArchiveToolOptions}
    → from_dict py (update_fields template.default_tool_options overrides) ≡ some options
    → build_job_config py template extra_seeds overrides extra_args
      ≡ when_valid
          (validate_tool_options py options)
          (job_to_dict py (config_of template extra_seeds extra_args options))
unfolding build_job_config
build_job_config-some py template extra_seeds overrides extra_args read =
    rw (read, build_job_config) refl

readable :
    (py : Python)
    → IsPython py
    → (c : ArchiveJobConfig) {d : Fields}
    → when_valid (validate_tool_options py c.tool_options) (job_to_dict py c) ≡ some d
    → (p : ArchiveJobConfig) × (job_from_dict py d ≡ some p)
      × (p.seeds ≡ c.seeds)
      × (p.zimit_passthrough_args ≡ c.zimit_passthrough_args)
      × (validate_tool_options py p.tool_options ≡ valid)
readable py laws c h =
    let w = when_valid-some (validate_tool_options py c.tool_options) (job_to_dict py c) h in
    let s = from_dict-valid py laws c.tool_options w.0 in
    (
      record c { tool_options = kept py c.tool_options },
      rw (sym w.1) (job_from_dict-job_to_dict py c s.0),
      refl,
      refl,
      s.1,
    )

-- A config that was built from a template can be read: it has the seeds and the arguments of the template, then
-- the extra ones, and options that pass the validation.
pub build_job_config_lem :
    (py : Python)
    → IsPython py
    → (template : SourceJobConfig) (extra_seeds : List String) (overrides : Fields)
      (extra_args : List String) {d : Fields}
    → build_job_config py template extra_seeds overrides extra_args ≡ some d
    → (c : ArchiveJobConfig) × (job_from_dict py d ≡ some c)
      × (c.seeds ≡ template.default_seeds ++ extra_seeds)
      × (c.zimit_passthrough_args ≡ template.default_zimit_passthrough_args ++ extra_args)
      × (validate_tool_options py c.tool_options ≡ valid)
unfolding build_job_config
build_job_config_lem py laws template extra_seeds overrides extra_args {d} h =
    elim (Option-cases (from_dict py (update_fields template.default_tool_options overrides))) [
      | inl raised ↦ absurd (ground arith)
      | inr (options, read) ↦
          readable py laws (config_of template extra_seeds extra_args options)
            (sym (build_job_config-some py template extra_seeds overrides extra_args read) ∙ h)
    ]
