-- ===== src/Release/Checks.antt =====
-- The checks of internal/release/manifest.go and state.go; the regular expressions are read over code points.
use konzhitai.Prelude.{
  ℕ, Bool, true, false, not, ◌&&◌, ◌||◌, String, Option, none, some, List, [], ◌∷◌, ◌++◌, length,
  all, codes, if◌then◌else◌, leb, ◌==◌, nat_eq, string_eq,
}
use konzhitai.Prelude.Int.{pos}
use konzhitai.Clock.{is_zero}
use konzhitai.Task.Usage.{int_eq}
use konzhitai.Release.{
  Compatibility, ZonedTime, ReleaseOrigin, ghcr, bootstrap, release_integration, other,
  ServiceImages, StoredRelease,
}

abbrev is_digit : ℕ → Bool
is_digit c = leb b'0' c && leb c b'9'

abbrev is_lower : ℕ → Bool
is_lower c = leb b'a' c && leb c b'z'

abbrev is_upper : ℕ → Bool
is_upper c = leb b'A' c && leb c b'Z'

abbrev is_hex : ℕ → Bool
is_hex c = is_digit c || leb b'a' c && leb c b'f'

-- `^[0-9a-f]{n}$`
abbrev lower_hex : ℕ → List ℕ → Bool
lower_hex n s = length s == n && all is_hex s

-- `lowerHex40Pattern`, `lowerHex64Pattern`
unfoldable pub lower_hex40 : String → Bool
lower_hex40 s = lower_hex 40 (codes s)

unfoldable pub lower_hex64 : String → Bool
lower_hex64 s = lower_hex 64 (codes s)

-- `ownerPattern`
abbrev owner_codes : List ℕ → Bool
owner_codes [] = false
owner_codes (c ∷ s) =
    (is_digit c || is_lower c)
    && leb (length s) 38
    && all (λ d. is_digit d || is_lower d || d == b'-') s

unfoldable pub valid_owner : String → Bool
valid_owner s = owner_codes (codes s)

-- `versionPattern`
abbrev is_word : ℕ → Bool
is_word c = is_digit c || is_upper c || is_lower c

abbrev version_codes : List ℕ → Bool
version_codes [] = false
version_codes (c ∷ s) =
    is_word c && leb (length s) 63 && all (λ d. is_word d || d == b'.' || d == b'_' || d == b'-') s

unfoldable pub valid_version : String → Bool
valid_version s = version_codes (codes s)

-- `targetIDPattern`
abbrev target_codes : List ℕ → Bool
target_codes [] = false
target_codes (c ∷ s) = leb b'1' c && leb c b'9' && leb (length s) 18 && all is_digit s

unfoldable pub run_target : String → Bool
run_target s = target_codes (codes s)

-- What follows a prefix.
abbrev drop_prefix : List ℕ → List ℕ → Option (List ℕ)
drop_prefix [] s = some s
drop_prefix (c ∷ p) [] = none
drop_prefix (c ∷ p) (d ∷ s) = let rest = drop_prefix p s in if c == d then rest else none

abbrev hex_after : ℕ → Option (List ℕ) → Bool
hex_after n none = false
hex_after n (some s) = lower_hex n s

-- `bootstrapImagePattern` with the given service.
unfoldable pub bootstrap_image : String → String → Bool
bootstrap_image service image =
    hex_after 12
      (drop_prefix (codes "yunling-local-bootstrap/" ++ (codes service ++ codes ":")) (codes image))

-- The part before the first `/`, and what follows it.
abbrev cons_first : ℕ → Option (List ℕ × List ℕ) → Option (List ℕ × List ℕ)
cons_first c none = none
cons_first c (some (s, rest)) = some (c ∷ s, rest)

abbrev until_slash : List ℕ → Option (List ℕ × List ℕ)
until_slash [] = none
until_slash (c ∷ s) =
    let rest = until_slash s in if c == b'/' then some ([], s) else cons_first c rest

abbrev ghcr_named : List ℕ → String → Bool
ghcr_named rest name =
    hex_after 64 (drop_prefix (codes "yunling-" ++ (codes name ++ codes "@sha256:")) rest)

abbrev ghcr_name : List ℕ → List ℕ → Option (List ℕ × String)
ghcr_name owner rest =
    if not (owner_codes owner)
    then none
    else if ghcr_named rest "services"
    then some (owner, "services")
    else if ghcr_named rest "web"
    then some (owner, "web")
    else if ghcr_named rest "ops"
    then some (owner, "ops")
    else none

abbrev after_registry : Option (List ℕ) → Option (List ℕ × String)
after_registry none = none
after_registry (some s) = elim (until_slash s) [
  | none ↦ none
  | some (owner, rest) ↦ ghcr_name owner rest
]

-- `parseStoredGHCRImage`: the owner and the name.
unfoldable pub parse_stored_ghcr_image : String → Option (List ℕ × String)
parse_stored_ghcr_image value = after_registry (drop_prefix (codes "ghcr.io/") (codes value))

unfoldable pub valid_target_id : String → Bool
unfolding run_target
valid_target_id value = value == "bootstrap" || run_target value

unfoldable pub is_utc_non_zero : ZonedTime → Bool
is_utc_non_zero t = if is_zero t.instant then false else t.offset == pos 0

unfoldable pub valid_compatibility : Compatibility → Bool
unfolding lower_hex64 valid_version
valid_compatibility value =
    lower_hex64 value.migration_tree_sha256
    && lower_hex64 value.deployment_contract_sha256
    && valid_version value.agent_version
    && lower_hex64 value.agent_manifest_sha256

abbrev codes_eq : List ℕ → List ℕ → Bool
codes_eq [] [] = true
codes_eq (a ∷ s) (b ∷ t) = a == b && codes_eq s t
codes_eq _ _ = false

abbrev owned : List ℕ → String → Option (List ℕ × String) → Bool
owned owner name none = false
owned owner name (some (o, n)) = n == name && codes_eq o owner

abbrev ghcr_images : ServiceImages → Option (List ℕ × String) → Bool
unfolding parse_stored_ghcr_image
ghcr_images images none = false
ghcr_images images (some (owner, name)) =
    name == "services"
    && images.scheduler == images.api
    && owned owner "web" (parse_stored_ghcr_image images.web)
    && owned owner "ops" (parse_stored_ghcr_image images.ops)

unfoldable pub valid_origin : StoredRelease → ReleaseOrigin → Bool
unfolding run_target lower_hex40 bootstrap_image ghcr_images
valid_origin r ghcr =
    run_target r.target_id
    && lower_hex40 r.source_sha
    && ghcr_images r.images (parse_stored_ghcr_image r.images.api)
valid_origin r bootstrap =
    r.target_id == "bootstrap"
    && r.source_sha == ""
    && bootstrap_image "api" r.images.api
    && bootstrap_image "scheduler" r.images.scheduler
    && bootstrap_image "web" r.images.web
    && bootstrap_image "ops" r.images.ops
valid_origin r release_integration = false
valid_origin r (other _) = false

-- `validateStoredRelease`
unfoldable pub validate_stored_release : StoredRelease → Bool → Bool
unfolding valid_compatibility is_utc_non_zero valid_origin
validate_stored_release r require_success =
    valid_compatibility r.compatibility
    && not (require_success && not (is_utc_non_zero r.successful_at))
    && not (not (is_zero r.successful_at.instant) && not (is_utc_non_zero r.successful_at))
    && valid_origin r r.origin
