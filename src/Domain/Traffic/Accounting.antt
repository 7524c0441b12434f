-- ===== src/Domain/Traffic/Accounting.antt =====
-- internal/domain/traffic.go: sequences of samples.
use Prim.Native.String.{String}
use xpanel.Prelude.{sym, ◌∙◌, ℕ, ◌+◌, ◌≤◌, ◌≡◌, ◌≢◌, Bool, false, List, [], ◌∷◌, none, some, arith}
use xpanel.Domain.Traffic.{
  TrafficDirectionCursor, TrafficSample, DeltaResult, max_counter, apply_sample,
}

-- One round of collection: the sample, and whether the round saw a confirmed restart.
pub record Round : Type 0 where
  pub sample : TrafficSample
  pub restarted : Bool

-- Rounds one after another, as the collector feeds them: the cursor and the missing mark carry over,
-- and the deltas add up.
unfoldable pub run :
    String → TrafficDirectionCursor → Bool → List Round → TrafficDirectionCursor × ℕ
run direction cursor was_missing [] = (cursor, 0)
run direction cursor was_missing (r ∷ rs) =
    let step = apply_sample direction cursor r.sample r.restarted was_missing in
    let (final, total) = run direction step.cursor step.missing rs in (final, step.delta + total)

abbrev pub counter_of : TrafficDirectionCursor → ℕ
counter_of c = elim c.counter [ none ↦ 0 | some n ↦ n ]

-- What one sample does to the cursor: an overflowing value is never stored, the epoch never falls and
-- rises by one at most, the delta is never more than the value read, and without a confirmed restart
-- the delta with the old counter never exceeds the new counter within an epoch.
abbrev pub SampleSpec : TrafficDirectionCursor → TrafficSample → Bool → DeltaResult → Type 0
SampleSpec c s restarted r =
    (counter_of r.cursor ≤ max_counter)
    × (c.epoch ≤ r.cursor.epoch)
    × (r.cursor.epoch ≤ c.epoch + 1)
    × (r.delta ≤ s.bytes)
    × (r.cursor.epoch ≡ c.epoch → counter_of r.cursor ≡ counter_of c + r.delta)
    × (restarted ≡ false → r.cursor.epoch ≢ c.epoch → r.delta ≡ 0)

-- Each sample, on a cursor whose counter is in range, keeps the counter in range, raises the epoch by
-- one at most, counts no more than was read, moves the counter by just the delta while the epoch
-- stays, and counts nothing when it opens a new epoch without a confirmed restart.
pub apply_sample-SampleSpec :
    (direction : String) (c : TrafficDirectionCursor) (s : TrafficSample)
    (restarted was_missing : Bool)
    → counter_of c ≤ max_counter
    → SampleSpec c s restarted (apply_sample direction c s restarted was_missing)
unfolding apply_sample
apply_sample-SampleSpec direction c s restarted was_missing h = ground arith

run-epoch :
    (direction : String) (c : TrafficDirectionCursor) (was_missing : Bool) (rs : List Round)
    → counter_of c ≤ max_counter
    → c.epoch ≤ (run direction c was_missing rs).0.epoch
unfolding run
run-epoch direction c was_missing [] h = omega arith
run-epoch direction c was_missing (r ∷ rs) h =
    let step = apply_sample direction c r.sample r.restarted was_missing in
    let spec = apply_sample-SampleSpec direction c r.sample r.restarted was_missing h in
    omega (arith, spec, run-epoch direction step.cursor step.missing rs spec.0)

-- Over any rounds in which the epoch does not change, the total counted is exactly the difference of the
-- last and the first counter, with gaps of missing samples in between: nothing is counted twice and
-- nothing is lost.
pub run_telescopes :
    (direction : String) (c : TrafficDirectionCursor) (was_missing : Bool) (rs : List Round)
    → counter_of c ≤ max_counter
    → (run direction c was_missing rs).0.epoch ≡ c.epoch
    → counter_of (run direction c was_missing rs).0
      ≡ counter_of c + (run direction c was_missing rs).1
unfolding run
run_telescopes direction c was_missing [] h e = omega arith
run_telescopes direction c was_missing (r ∷ rs) h e =
    let step = apply_sample direction c r.sample r.restarted was_missing in
    let spec = apply_sample-SampleSpec direction c r.sample r.restarted was_missing h in
    let later = run-epoch direction step.cursor step.missing rs spec.0 in
    let same : step.cursor.epoch ≡ c.epoch = omega (arith, spec, later) in
    omega (
      arith,
      spec.4 same,
      run_telescopes direction step.cursor step.missing rs spec.0 (e ∙ sym same),
    )
