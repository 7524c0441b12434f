-- ===== src/Domain/Inbound.antt =====
-- internal/domain/inbound.go: the panel's namespace in Xray, inbound tags, rotation identities.
pub mod Laws
use xpanel.Prelude.{
  ℕ, ◌+◌, Bool, true, false, not, ◌&&◌, ◌||◌, List, [], ◌∷◌, ◌++◌, ltb, leb, ◌==◌, if◌then◌else◌,
  length, any,
}
use xpanel.Prelude.Text.{Text, codes, has_prefix, has_suffix}
use xpanel.Domain.Errors.{Result, ok, err, validation_error, invalid_state_error}

abbrev pub namespace_prefix : Text
namespace_prefix = codes "xpanel-"

unfoldable pub inbound_tag : Text → Text
inbound_tag allocation_id = namespace_prefix ++ allocation_id

unfoldable pub is_panel_namespace : Text → Bool
is_panel_namespace value = has_prefix value namespace_prefix

-- `unicode.IsControl` on the code points below 256; no code point above is a control character.
abbrev pub is_control : ℕ → Bool
is_control c = ltb c 32 || (leb 127 c && ltb c 160)

-- `strings.Contains(s, sep)`.
unfoldable pub contains_text : Text → Text → Bool
contains_text [] sep = has_prefix [] sep
contains_text (c ∷ s) sep = has_prefix (c ∷ s) sep || contains_text s sep

abbrev pub separator : Text
separator = codes ">>>"

unfoldable pub validate_inbound_tag : Text → Result (Unit {0})
validate_inbound_tag tag =
    if not (is_panel_namespace tag)
    then err (validation_error "inbound_tag" "inbound tag must use the panel namespace prefix")
    else if leb (length tag) (length namespace_prefix)
    then err (validation_error "inbound_tag" "inbound tag must not be the bare namespace prefix")
    else if any is_control tag || contains_text tag separator
    then err (validation_error "inbound_tag" "inbound tag contains forbidden characters")
    else ok tt

abbrev pub rotation_suffix : Text
rotation_suffix = codes "-rotate"

unfoldable pub rotation_safety_id : Text → Text
rotation_safety_id statistics_id = statistics_id ++ rotation_suffix

unfoldable pub is_rotation_safety_id : Text → Bool
unfolding is_panel_namespace
is_rotation_safety_id value = is_panel_namespace value && has_suffix value rotation_suffix

abbrev pub inbound_client_count : ℕ
inbound_client_count = 1

unfoldable pub validate_inbound_clients : ℕ → Result (Unit {0})
validate_inbound_clients count =
    if not (count == inbound_client_count)
    then err (invalid_state_error "a dedicated inbound must carry exactly one managed client")
    else ok tt
