-- ===== src/Store/Templates/Generations.antt =====
-- internal/persistence/sqlite/store_templates.go, `AdvanceCapabilityGeneration`: which signals advance it.
use xpanel.Prelude.{
  ℕ, ◌+◌, ◌≤◌, ◌<◌, ◌≡◌, ◌⊎◌, ◌↔◌, inl, inr, refl, sym, subst, Option-cases, ◌∙◌, true, false, List,
  [], ◌∷◌, some, arith, if◌then◌else◌,
}
use xpanel.Domain.Traffic.{distance, restart_confirmed}
use xpanel.Store.Tables.{InstanceRow}
use xpanel.Store.Templates.{CapabilitySignal, restarted, advance}

-- Signals one after another.
unfoldable pub run : ℕ → InstanceRow → List CapabilitySignal → InstanceRow
run tolerance i [] = i
run tolerance i (s ∷ ss) = run tolerance (advance s tolerance i).0 ss

-- The whole second `e` or the one after it.
abbrev pub IsNear : ℕ → ℕ → Type 0
IsNear e t = (t ≡ e) ⊎ (t ≡ e + 1000)

-- What one process shows: its boot epoch within a second, its uptime never falling, no reconnection; a
-- signal of unknown epoch may say anything.
abbrev pub IsOneProcess : ℕ → ℕ → List CapabilitySignal → Type 0
IsOneProcess e last [] = Unit
IsOneProcess e last (s ∷ ss) =
    ((s.known ≡ false) × IsOneProcess e last ss)
    ⊎ (IsNear e s.boot_epoch
        × (s.suspected_restart ≡ false)
        × (last ≤ s.uptime_seconds)
        × IsOneProcess e s.uptime_seconds ss)

-- A row that the process has been seen by.
abbrev pub IsAnchored : ℕ → ℕ → InstanceRow → Type 0
IsAnchored e last i =
    (a : ℕ) × (i.boot_epoch ≡ some a) × IsNear e a × (i.last_uptime_seconds ≤ last)

-- The row stays as it is, but for a greater uptime.
abbrev pub IsKept : InstanceRow → InstanceRow → Type 0
IsKept i j = (j.capability_generation ≡ i.capability_generation) × (j.boot_epoch ≡ i.boot_epoch)

advance-unknown :
    (s : CapabilitySignal) (tolerance : ℕ) (i : InstanceRow)
    → s.known ≡ false
    → (advance s tolerance i).0 ≡ i
unfolding advance
advance-unknown s tolerance i h = ground (arith, h)

-- Within a second and with no other sign, nothing has restarted.
near-quiet :
    (e a : ℕ) (s : CapabilitySignal) (uptime : ℕ)
    → IsNear e a
    → IsNear e s.boot_epoch
    → s.suspected_restart ≡ false
    → uptime ≤ s.uptime_seconds
    → restarted s 1000 a uptime ≡ false
unfolding restarted restart_confirmed
near-quiet e a s uptime near near' calm up = ground (arith, near, near', calm, up)

advance-one :
    (e last a : ℕ) (s : CapabilitySignal) (i : InstanceRow)
    → i.boot_epoch ≡ some a
    → IsNear e a
    → i.last_uptime_seconds ≤ last
    → IsNear e s.boot_epoch
    → s.suspected_restart ≡ false
    → last ≤ s.uptime_seconds
    → ((advance s 1000 i).0.boot_epoch ≡ some a)
      × ((advance s 1000 i).0.last_uptime_seconds ≤ s.uptime_seconds)
      × ((advance s 1000 i).0.capability_generation ≡ i.capability_generation)
unfolding advance
advance-one e last a s i y near low near' calm up =
    let quiet = near-quiet e a s i.last_uptime_seconds near near' calm (omega (arith, low, up)) in
    ground (arith, y, quiet, low, up)

run-IsKept :
    (e last : ℕ) (i : InstanceRow) (ss : List CapabilitySignal)
    → IsAnchored e last i
    → IsOneProcess e last ss
    → IsKept i (run 1000 i ss)
unfolding run
run-IsKept e last i [] h p = (refl, refl)
run-IsKept e last i (s ∷ ss) h (inl (dark, p)) =
    subst (λ j. IsKept i (run 1000 j ss)) (sym (advance-unknown s 1000 i dark))
      (run-IsKept e last i ss h p)
run-IsKept e last i (s ∷ ss) h (inr (near, calm, up, p)) =
    let (a, y, anchor, low) = h in
    let (y', low', g) = advance-one e last a s i y anchor low near calm up in
    let (g', b') = run-IsKept e s.uptime_seconds (advance s 1000 i).0 ss (a, y', anchor, low') p in
    (g' ∙ g, b' ∙ y' ∙ sym y)

-- However often one process is observed, with its boot epoch shaking by the second that the whole-second
-- uptime allows, neither the generation nor the anchor moves, also with unknown epochs in between.
pub one_process_keeps :
    (e : ℕ) (i : InstanceRow) (ss : List CapabilitySignal)
    → IsAnchored e i.last_uptime_seconds i
    → IsOneProcess e i.last_uptime_seconds ss
    → IsKept i (run 1000 i ss)
one_process_keeps e i ss h p = run-IsKept e i.last_uptime_seconds i ss h p

-- Another process with a known epoch is noticed at its first signal, and advances the generation by one,
-- if its uptime is less than one seen before, if its epoch is more than the tolerance from the anchor, or if
-- a restart is suspected; without these signs, or without an anchor, the generation stays.
pub advance-generation :
    (s : CapabilitySignal) (tolerance : ℕ) (i : InstanceRow)
    → let r = advance s tolerance i in
      ((r.1 ≡ true) ↔ (
        (s.known ≡ true)
        × ((a : ℕ) × (i.boot_epoch ≡ some a)
            × ((tolerance < distance a s.boot_epoch)
                ⊎ (s.uptime_seconds < i.last_uptime_seconds)
                ⊎ (s.suspected_restart ≡ true)))))
      × (r.0.capability_generation ≡ i.capability_generation + (if r.1 then 1 else 0))
unfolding advance restarted restart_confirmed
advance-generation s tolerance i = elim (Option-cases i.boot_epoch) [
  | inl nothing ↦ (
    (
      λ h. absurd (ground (arith, h, nothing)),
      λ (_, (a, h, _)). absurd (ground (arith, h, nothing)),
    ),
    ground (arith, nothing),
  )
  | inr (a, y) ↦ (
    (
      λ h. (ground (arith, h, y), (a, y, ground (arith, h, y))),
      λ (k, (b, z, sign)).
          let same : a ≡ b = ground (arith, y, z) in ground (arith, k, y, same, sign),
    ),
    ground (arith, y),
  )
]
