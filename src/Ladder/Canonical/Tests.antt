-- ===== src/Ladder/Canonical/Tests.antt =====
-- A run of `canonicalSemanticVersions` of cli/update/version.go.
use atum.Base.{List, [], ◌∷◌, Text, text, inl, inr, ◌≡◌, refl}
use atum.Ladder.Validate.{parse_trimmed}
use atum.Ladder.Tests.{test_semver, test_semver-IsSemver}
use atum.Ladder.Canonical.{
  canonical, in_run, run_of, after_run, has_same_mark, chosen_of, canonical_from,
  canonical_semantic_versions,
}
use atum.Ladder.Canonical.Current.{Has, canonical_semantic_versions-current}

abbrev itself : Text → Text
itself s = s

abbrev spellings : List Text
spellings = text "v1.4" ∷ text "1.4" ∷ text "1.3" ∷ text "v1.3" ∷ []

kept_spellings :
    canonical_semantic_versions test_semver itself (text "1.3") spellings
    ≡ canonical (text "1.4" ∷ text "1.3" ∷ [])
unfolding canonical_semantic_versions canonical_from parse_trimmed in_run run_of after_run
    has_same_mark chosen_of
kept_spellings = refl

canonical_semantic_versions-current_example :
    Has test_semver itself (text "1.3") (text "1.4" ∷ text "1.3" ∷ [])
canonical_semantic_versions-current_example =
    canonical_semantic_versions-current test_semver itself test_semver-IsSemver (text "1.3")
      spellings (text "1.4" ∷ text "1.3" ∷ []) kept_spellings (inr (inr (inl refl)))
