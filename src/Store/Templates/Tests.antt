-- ===== src/Store/Templates/Tests.antt =====
-- Signals of one process and of the next.
use xpanel.Prelude.{List, ℕ, inl, inr, refl, arith, true, false, [], ◌∷◌, some}
use xpanel.Store.Tables.{InstanceRow, healthy}
use xpanel.Store.Templates.{CapabilitySignal}
use xpanel.Store.Templates.Generations.{IsKept, run, one_process_keeps}
use xpanel.Store.Tests.{db as tables}

abbrev signal : ℕ → ℕ → CapabilitySignal
signal epoch uptime = record {
  boot_epoch = epoch;
  uptime_seconds = uptime;
  known = true;
  suspected_restart = false;
}

abbrev anchored : InstanceRow
anchored = record {
  health = healthy;
  boot_epoch = some 51000;
  capability_generation = 4;
  last_uptime_seconds = 10;
}

abbrev shaking : List CapabilitySignal
shaking = signal 50000 15 ∷ signal 51000 19 ∷ signal 50000 25 ∷ []

one_process_keeps_example : IsKept anchored (run 1000 anchored shaking)
one_process_keeps_example =
    one_process_keeps 50000 anchored shaking (51000, refl, inr refl, omega arith)
      (inr (
        inl refl,
        refl,
        omega arith,
        inr (inr refl, refl, omega arith, inr (inl refl, refl, omega arith, tt)),
      ))
