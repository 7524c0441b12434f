-- ===== src/Store/Templates/Evidence.antt =====
-- internal/persistence/sqlite/store_templates.go: the evidence behind a compatible template.
use xpanel.Prelude.{ℕ, ◌+◌, ◌≡◌, ◌≢◌, ◌⊎◌, false, none, some, List, [], ◌∷◌}
use xpanel.Store.Tables.{TemplateRow, unverified, compatible}

-- What becomes of a template: it is kept, and if it is live and compatible its evidence is of the
-- generation; or it is live and compatible on other evidence, and has to be validated again.
abbrev pub IsJudged : ℕ → TemplateRow → TemplateRow → Type 0
IsJudged generation t t' =
    ((t' ≡ t)
      × (t.archived ≡ false
          → t.compatibility ≡ compatible
          → t.validated_generation ≡ some generation))
    ⊎ ((t.archived ≡ false)
        × (t.compatibility ≡ compatible)
        × (t.validated_generation ≢ some generation)
        × (t' ≡ record t {
          compatibility = unverified;
          validated_generation = none;
          revision = t.revision + 1;
        }))

abbrev pub AllJudged : ℕ → List TemplateRow → List TemplateRow → Type 0
AllJudged generation [] [] = Unit
AllJudged generation (t ∷ ts) (t' ∷ ts') = IsJudged generation t t' × AllJudged generation ts ts'
AllJudged generation _ _ = ⊥
