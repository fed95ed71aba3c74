-- ===== src/Registry.antt =====
-- src/ha_backend/job_registry.py: the managed scope arguments of the canada.ca sources.
pub mod Drift
pub mod Templates
pub mod Built
pub mod Switch
mod Tests
use healtharchive_backend.Base.{
  String, Bool, true, false, ◌||◌, ◌&&◌, not, Option, none, some, List, [], ◌∷◌, ◌++◌, ◌==◌,
  Equality, string_eq, list_eq, if◌then◌else◌, contains,
}

unfoldable pub hc_canada_ca_scope_include_rx : String
hc_canada_ca_scope_include_rx =
    "^https://www[.]canada[.]ca/(?:en/health-canada[.]html|fr/sante-canada[.]html|en/health-canada/[^?#]*|fr/sante-canada/[^?#]*|etc/designs/canada/wet-boew/.*|content/dam/canada/sitemenu/.*|content/dam/themes/health/.*|content/dam/hc-sc/.*\\.(?:css|js|json|svg|png|jpe?g|gif|ico|webp|avif|woff2?|ttf|eot)(?:\\?[^#]*)?)$"

unfoldable pub hc_canada_ca_scope_exclude_rx : String
hc_canada_ca_scope_exclude_rx =
    "^(?:https://www[.]canada[.]ca/.*[.](?:pdf|mp4|zip|docx?|pptx?|xlsx?)(?:[?#].*)?)$"

unfoldable pub phac_canada_ca_scope_include_rx : String
phac_canada_ca_scope_include_rx =
    "^https://www[.]canada[.]ca/(?:en/public-health[.]html|fr/sante-publique[.]html|en/public-health/[^?#]*|fr/sante-publique/[^?#]*|etc/designs/canada/wet-boew/.*|content/dam/canada/sitemenu/.*|content/dam/themes/health/.*|content/dam/phac-aspc/.*\\.(?:css|js|json|svg|png|jpe?g|gif|ico|webp|avif|woff2?|ttf|eot)(?:\\?[^#]*)?)$"

unfoldable pub phac_canada_ca_scope_exclude_rx : String
phac_canada_ca_scope_exclude_rx =
    "^(?:https://www[.]canada[.]ca/.*[.](?:pdf|mp4|zip|docx?|pptx?|xlsx?)(?:[?#].*)?|https://www[.]canada[.]ca/en/public-health/services/public-health-notices(?:/[^?#]*)?(?:[?#].*)?|https://www[.]canada[.]ca/(?:en/public-health/services/travel-health/medical-access-artesunate-quinine-malaria-treatment[.]html|fr/sante-publique/services/sante-voyageurs/acces-medicale-a-artesunate-quinine-traitement-paludisme[.]html)(?:[?#].*)?|https://www[.]canada[.]ca/en/public-health/services/immunization/national-advisory-committee-on-immunization-naci(?:/[^?#]*)?(?:[?#].*)?|https://www[.]canada[.]ca/en/public-health/services/reports-publications/canada-communicable-disease-report-ccdr(?:/[^?#]*)?(?:[?#].*)?|https://www[.]canada[.]ca/en/public-health/services/canadian-immunization-guide(?:/[^?#]*)?(?:[?#].*)?)$"

-- The filters of the sources with a managed scope; `fold` is `strip` and `lower`.
unfoldable pub canonical_scope_filters_for_source :
    (String → String) → String → Option (String × String)
canonical_scope_filters_for_source fold source_code =
    let code = fold source_code in
    if code == "hc"
    then some (hc_canada_ca_scope_include_rx, hc_canada_ca_scope_exclude_rx)
    else if code == "phac"
    then some (phac_canada_ca_scope_include_rx, phac_canada_ca_scope_exclude_rx)
    else none

abbrev pub canada_ca_extra_chrome_args : List String
canada_ca_extra_chrome_args = []

abbrev pub legacy_canada_ca_extra_chrome_args : List String
legacy_canada_ca_extra_chrome_args = "--disable-http2" ∷ []

-- The arguments whose next item is replaced with them.
unfoldable pub is_scope : String → Bool
is_scope tok = tok == "--scopeType" || (tok == "--scopeIncludeRx" || tok == "--scopeExcludeRx")

-- `remaining` after the loop over the arguments.
unfoldable pub remaining : List String → List String
unfolding is_scope
remaining [] = []
remaining (tok ∷ []) = if is_scope tok || tok == "--extraChromeArgs" then [] else tok ∷ []
remaining (tok ∷ (value ∷ rest)) =
    let after_both = remaining rest in
    let after_one = remaining (value ∷ rest) in
    if is_scope tok || tok == "--extraChromeArgs" then after_both else tok ∷ after_one

-- `existing_extra_chrome_args` after the loop over the arguments.
unfoldable pub existing_chrome_args : List String → List String
unfolding is_scope
existing_chrome_args [] = []
existing_chrome_args (tok ∷ []) = []
existing_chrome_args (tok ∷ (value ∷ rest)) =
    let after_both = existing_chrome_args rest in
    let after_one = existing_chrome_args (value ∷ rest) in
    if is_scope tok
    then after_both
    else if tok == "--extraChromeArgs"
    then value ∷ after_both
    else after_one

-- The values that are kept: each one once, without the removed ones.
unfoldable pub keep_chrome_args :
    List String → List String → List String → List String → List String
keep_chrome_args extra removed seen [] = []
keep_chrome_args extra removed seen (value ∷ rest) =
    let skip = keep_chrome_args extra removed seen rest in
    let take = value ∷ keep_chrome_args extra removed (value ∷ seen) rest in
    if contains removed value && not (contains extra value)
    then skip
    else if contains seen value
    then skip
    else take

unfoldable pub chrome_tokens : List String → List String
chrome_tokens [] = []
chrome_tokens (value ∷ rest) = "--extraChromeArgs" ∷ (value ∷ chrome_tokens rest)

unfoldable pub normalize_scope_passthrough_args :
    String → String → List String → List String → List String → List String
unfolding chrome_tokens
normalize_scope_passthrough_args include_rx exclude_rx extra removed args =
    "--scopeType"
    ∷ ("custom"
        ∷ ("--scopeIncludeRx"
            ∷ (include_rx
                ∷ ("--scopeExcludeRx"
                    ∷ (exclude_rx
                        ∷ (chrome_tokens (
                              keep_chrome_args extra removed []
                                (extra ++ existing_chrome_args args))
                            ++ remaining args))))))

-- The arguments with these filters, and whether they differed from that.
unfoldable pub reconcile_with : Option (String × String) → List String → List String × Bool
reconcile_with none args = (args, false)
reconcile_with (some (include_rx, exclude_rx)) args =
    let normalized =
      normalize_scope_passthrough_args include_rx exclude_rx canada_ca_extra_chrome_args
        legacy_canada_ca_extra_chrome_args args in
    (normalized, not (normalized == args))

unfoldable pub reconcile_scope_passthrough_args :
    (String → String) → String → List String → List String × Bool
unfolding reconcile_with
reconcile_scope_passthrough_args fold source_code args =
    reconcile_with (canonical_scope_filters_for_source fold source_code) args
