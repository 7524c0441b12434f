-- ===== src/Traffic/Reading.antt =====
-- internal/application/traffic_service.go, `readAll`: a round is read in batches.
pub mod Covering
use xpanel.Prelude.{
  ℕ, zero, suc, ◌+◌, ◌-◌, Bool, true, false, not, ◌&&◌, ◌||◌, List, [], ◌∷◌, ◌++◌, Option, none,
  some, ltb, leb, length, is_some, Bool_eq, if◌then◌else◌,
}
use xpanel.Prelude.Text.{Text}
use xpanel.Domain.Traffic.{distance}
use xpanel.Ports.{CallError, Reply, done, failed}
use xpanel.Traffic.Counters.{InstanceObservation, TrafficRound}

abbrev pub read_batch_size : ℕ
read_batch_size = 20

abbrev pub boot_epoch_quantization : ℕ
boot_epoch_quantization = 1000

-- The reasons of `InconsistentRoundError`.
pub data Mismatch : Type 0 where
  visibility_changed epoch_changed uptime_decreased time_regressed : Mismatch

-- `current.ObservedAt.Before(previous.ObservedAt)`, where the zero time comes before all.
abbrev pub is_before : Option ℕ → Option ℕ → Bool
is_before _ none = false
is_before none (some previous) = true
is_before (some current) (some previous) = ltb current previous

-- `observationMismatch`; none is the empty reason.
unfoldable pub observation_mismatch :
    InstanceObservation → InstanceObservation → InstanceObservation → Option Mismatch
observation_mismatch first previous current =
    if not (Bool_eq first.boot_epoch_known current.boot_epoch_known)
    then some visibility_changed
    else if first.boot_epoch_known
        && ltb boot_epoch_quantization (distance first.boot_epoch current.boot_epoch)
    then some epoch_changed
    else if first.boot_epoch_known
        && is_some previous.observed_at
        && ltb current.uptime_seconds previous.uptime_seconds
    then some uptime_decreased
    else if is_before current.observed_at previous.observed_at
    then some time_regressed
    else none

-- What `readAll` returns.
pub data Reading : Type 0 where
  round : TrafficRound → Reading
  rpc_failed : CallError → Reading
  inconsistent : Mismatch → InstanceObservation → InstanceObservation → Reading

-- `ids[start:end]` and `ids[end:]`.
abbrev pub take : {A : Type 0} → ℕ → List A → List A
take zero xs = []
take (suc n) [] = []
take (suc n) (x ∷ xs) = x ∷ take n xs

abbrev pub drop : {A : Type 0} → ℕ → List A → List A
drop zero xs = xs
drop (suc n) [] = []
drop (suc n) (x ∷ xs) = drop n xs

-- `merged` with the observation time of the last batch.
unfoldable pub with_last_time : TrafficRound → InstanceObservation → TrafficRound
with_last_time merged last = elim last.observed_at [
  | none ↦ merged
  | some t ↦ record merged { observation = record merged.observation { observed_at = some t } }
]

abbrev pub joined : TrafficRound → TrafficRound → TrafficRound
joined merged next = record merged { snapshots = merged.snapshots ++ next.snapshots }

module _ {S : Type 0} (read : List Text → S → S × Reply TrafficRound) where
  -- The loop after its first batch, on the identities still to be read; `fuel` bounds the batches.
  unfoldable pub read_rest : ℕ → TrafficRound → InstanceObservation → List Text → S → S × Reading
  read_rest fuel merged previous [] s = (s, round (with_last_time merged previous))
  read_rest zero merged previous (id ∷ ids) s = (s, round merged)
  read_rest (suc fuel) merged previous (id ∷ ids) s =
      let (s', reply) = read (take read_batch_size (id ∷ ids)) s in
      elim reply [
        | failed e ↦ (s', rpc_failed e)
        | done next ↦ elim (observation_mismatch merged.observation previous next.observation) [
          | some reason ↦ (s', inconsistent reason merged.observation next.observation)
          | none ↦
              read_rest fuel (joined merged next) next.observation (drop read_batch_size (id ∷ ids))
                s'
        ]
      ]

  abbrev nothing_read : TrafficRound
  nothing_read = record {
    observation = record {
      observed_at = none;
      uptime_seconds = 0;
      boot_epoch = 0;
      boot_epoch_known = false;
    };
    snapshots = [];
  }

  -- `readAll`. The first batch sets the observation that the others are compared with.
  unfoldable pub read_all : List Text → S → S × Reading
  unfolding read_rest
  read_all [] s = (s, round nothing_read)
  read_all (id ∷ ids) s =
      let (s', reply) = read (take read_batch_size (id ∷ ids)) s in
      elim reply [
        | failed e ↦ (s', rpc_failed e)
        | done first ↦
            read_rest (length ids) first first.observation (drop read_batch_size (id ∷ ids)) s'
      ]
