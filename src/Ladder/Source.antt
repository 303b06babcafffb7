-- ===== src/Ladder/Source.antt =====
-- cli/config/config.go: `validateGitSource` and the checks that it calls.
use atum.Base.{
  ℕ, suc, Bool, true, false, ◌&&◌, ◌||◌, not, none, some, List, [], ◌∷◌, ◌++◌, Text, text, str_eq,
  elem, has_prefix, has_suffix, contains, trim_prefix, length, ◌==◌, if◌then◌else◌,
}
use atum.Fssecure.{relative}
use atum.Update.Version.{all_lower_hex, valid_hex_sha256}
use atum.Ladder.{Asset, GitSource, elements}

-- What `validateGitSource` has to say of a source; the name of the source stands before each.
pub data SourceProblem : Type 0 where
  incomplete other_ref bad_branch bad_commit : SourceProblem
  bad_patch : Text → SourceProblem
  bad_asset : ℕ → SourceProblem
  bad_asset_file repeated_id repeated_file : Text → SourceProblem

-- A list with an entry if something is wrong.
abbrev pub when {ℓ} : {A : Type ℓ} → Bool → A → List A
when true a = a ∷ []
when false a = []

-- `strings.ContainsAny(s, chars)`, on ASCII characters.
pub contains_any : Text → Text → Bool
unfolding contains
contains_any [] chars = false
contains_any (c ∷ s) chars = contains chars (c ∷ []) || contains_any s chars

-- `validGitBranch`
pub valid_git_branch : Text → Bool
unfolding str_eq has_prefix has_suffix contains contains_any
valid_git_branch branch =
    not (str_eq branch [])
    && not (has_prefix branch (text "."))
    && not (has_suffix branch (text "."))
    && not (has_suffix branch (text "/"))
    && not (has_suffix branch (text ".lock"))
    && not (contains_any branch (text " \\~^:?*["))
    && not (contains branch (text ".."))
    && not (contains branch (text "@{"))
    && not (contains branch (text "//"))

-- `validateRelative`
pub is_relative : Text → Bool
unfolding relative
is_relative path = elim (relative path) [ none ↦ false | some _ ↦ true ]

pub validate_patches : List Text → List SourceProblem
unfolding is_relative
validate_patches [] = []
validate_patches (patch ∷ rest) =
    when (not (is_relative patch)) (bad_patch patch) ++ validate_patches rest

pub valid_asset : Asset → Bool
unfolding str_eq has_prefix valid_hex_sha256
valid_asset a =
    not (str_eq a.id [])
    && has_prefix a.url (text "https://")
    && valid_hex_sha256 a.source_sha256
    && valid_hex_sha256 a.sha256

-- The loop over the assets, with the ids and the files that it has seen.
pub validate_assets : ℕ → List Text → List Text → List Asset → List SourceProblem
unfolding valid_asset is_relative elem
validate_assets i ids files [] = []
validate_assets i ids files (a ∷ rest) =
    when (not (valid_asset a)) (bad_asset i)
    ++ (when (not (is_relative a.file)) (bad_asset_file a.id)
        ++ (when (elem a.id ids) (repeated_id a.id)
            ++ (when (elem a.file files) (repeated_file a.file)
                ++ validate_assets (suc i) (a.id ∷ ids) (a.file ∷ files) rest)))

-- `validateGitSource`. A character of the commit is hexadecimal exactly if its bytes are.
unfoldable pub validate_git_source : GitSource → List SourceProblem
unfolding has_prefix str_eq trim_prefix valid_git_branch all_lower_hex validate_patches
    validate_assets
validate_git_source source =
    if not (has_prefix source.url (text "https://"))
      || str_eq source.version []
      || not (length source.commit == 40)
    then incomplete ∷ []
    else when
        (not (str_eq source.ref [])
          && not
              (str_eq (trim_prefix source.ref (text "v")) (trim_prefix source.version (text "v"))))
        other_ref
      ++ (when
            (not (str_eq source.branch [])
              && (not (valid_git_branch source.branch) || not (str_eq source.ref [])))
            bad_branch
          ++ (when (not (all_lower_hex source.commit)) bad_commit
              ++ (validate_patches (elements source.patches)
                  ++ validate_assets 0 [] [] (elements source.assets))))
