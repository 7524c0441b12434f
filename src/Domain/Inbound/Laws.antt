-- ===== src/Domain/Inbound/Laws.antt =====
-- internal/domain/inbound.go: the tags and identities that the panel derives.
use mathlib.Core.List.{append_cancel_right, append_cancel_left}
use xpanel.Prelude.{
  sym, ℕ, ◌≡◌, ◌≢◌, refl, true, false, [], ◌∷◌, ◌++◌, arith, leb, length, any, All,
}
use xpanel.Prelude.Text.{Text, codes, has_prefix, has_prefix-append, has_suffix-append, append-ne}
use xpanel.Domain.Errors.{ok}
use xpanel.Domain.Inbound.{
  inbound_tag, is_panel_namespace, is_control, contains_text, separator, validate_inbound_tag,
  rotation_safety_id, rotation_suffix, is_rotation_safety_id, namespace_prefix,
}

-- The characters of an identifier: no control character, no `>`.
abbrev pub IsPlain : ℕ → Type 0
IsPlain c = (is_control c ≡ false) × (c ≢ b'>')

any-is_control : (s : Text) → All IsPlain s → any is_control s ≡ false
any-is_control [] h = refl
any-is_control (c ∷ s) h = ground (arith, any-is_control s h.1)

-- A text without `>` does not contain the separator.
contains_text-IsPlain : (s : Text) → All IsPlain s → contains_text s separator ≡ false
unfolding contains_text has_prefix
contains_text-IsPlain [] h = refl
contains_text-IsPlain (c ∷ s) h = ground (arith, contains_text-IsPlain s h.1)

any-append :
    (s t : Text)
    → any is_control s ≡ false
    → any is_control t ≡ false
    → any is_control (s ++ t) ≡ false
any-append [] t p q = q
any-append (c ∷ s) t p q = ground (arith, any-append s t)

All-IsPlain-append : (s t : Text) → All IsPlain s → All IsPlain t → All IsPlain (s ++ t)
All-IsPlain-append [] t p q = q
All-IsPlain-append (c ∷ s) t p q = (p.0, All-IsPlain-append s t p.1 q)

prefix-IsPlain : All IsPlain namespace_prefix
prefix-IsPlain = ground arith

length-inbound_tag : (x : ℕ) (id : Text) → leb (length (inbound_tag (x ∷ id))) 7 ≡ false
unfolding inbound_tag
length-inbound_tag x id = ground arith

-- For a non-empty identifier of plain characters the derived tag lies in the panel's namespace and
-- passes the validation that guards every insertion of an inbound.
pub inbound_tag_valid :
    (x : ℕ) (id : Text)
    → All IsPlain (x ∷ id)
    → (is_panel_namespace (inbound_tag (x ∷ id)) ≡ true)
      × (validate_inbound_tag (inbound_tag (x ∷ id)) ≡ ok tt)
unfolding validate_inbound_tag is_panel_namespace inbound_tag
inbound_tag_valid x id h =
    let named : has_prefix (namespace_prefix ++ x ∷ id) namespace_prefix ≡ true =
      has_prefix-append namespace_prefix (x ∷ id) in
    let plain : All IsPlain (namespace_prefix ++ x ∷ id) =
      All-IsPlain-append namespace_prefix (x ∷ id) prefix-IsPlain h in
    (
      named,
      ground (
        arith,
        named,
        any-is_control (namespace_prefix ++ x ∷ id) plain,
        contains_text-IsPlain (namespace_prefix ++ x ∷ id) plain,
      ),
    )

-- Distinct allocations get distinct tags.
pub inbound_tag_injective : (s t : Text) → inbound_tag s ≡ inbound_tag t → s ≡ t
unfolding inbound_tag
inbound_tag_injective s t e = append_cancel_left namespace_prefix s t e

has_prefix_weaken : (s p t : Text) → has_prefix s p ≡ true → has_prefix (s ++ t) p ≡ true
unfolding has_prefix
has_prefix_weaken s [] t h = refl
has_prefix_weaken [] (y ∷ p) t h = cc
has_prefix_weaken (x ∷ s) (y ∷ p) t h = ground (arith, has_prefix_weaken s p t)

pub rotation_safety_id-ne : (sid : Text) → sid ≢ rotation_safety_id sid
unfolding rotation_safety_id
rotation_safety_id-ne sid e = append-ne sid b'-' (codes "rotate") e

-- A rotation's transition identity of a panel identity is recognised as one, stays in the panel's
-- namespace, and differs from the identity it guards; two identities never share one.
pub rotation_safety_id_distinct :
    (sid other : Text)
    → is_panel_namespace sid ≡ true
    → (is_rotation_safety_id (rotation_safety_id sid) ≡ true)
      × (rotation_safety_id sid ≢ sid)
      × (rotation_safety_id sid ≡ rotation_safety_id other → sid ≡ other)
unfolding is_rotation_safety_id rotation_safety_id is_panel_namespace
rotation_safety_id_distinct sid other h = (
  ground (
    arith,
    has_prefix_weaken sid namespace_prefix rotation_suffix h,
    has_suffix-append sid rotation_suffix,
  ),
  (λ e. append-ne sid b'-' (codes "rotate") (sym e)),
  append_cancel_right sid other rotation_suffix,
)
