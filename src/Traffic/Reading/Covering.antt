-- ===== src/Traffic/Reading/Covering.antt =====
-- internal/application/traffic_service.go, `readAll`, over internal/adapter/xray/stats.go, `ReadTraffic`.
use xpanel.Prelude.{
  ℕ, zero, suc, ◌-◌, ◌≤◌, ◌≡◌, refl, sym, ap, ◌∙◌, List, [], ◌∷◌, ◌++◌, arith, length, Option-cases,
  inl, inr, ◌⊎◌,
}
use xpanel.Prelude.Text.{Text, codes}
use xpanel.Ports.{CallError, Reply, done, failed}
use xpanel.Traffic.Counters.{
  Direction, uplink, downlink, InstanceObservation, CounterSnapshot, TrafficRound, Node, StatReply,
  direction_name, counter_name, value, not_found, malformed, stat_failed, read_counter,
  read_identity, read_identities, read_traffic,
}
use xpanel.Traffic.Reading.{
  round, take, drop, with_last_time, joined, read_rest, read_all, read_batch_size,
  observation_mismatch,
}

abbrev pub named : List CounterSnapshot → List (Text × Direction)
named [] = []
named (c ∷ cs) = (c.statistics_id, c.direction) ∷ named cs

-- Every identity with both of its directions, in order.
abbrev pub twice : List Text → List (Text × Direction)
twice [] = []
twice (i ∷ is) = (i, uplink) ∷ (i, downlink) ∷ twice is

-- A read of at most twenty identities that succeeds answers for each of them.
pub record Answers {S : Type 0} (read : List Text → S → S × Reply TrafficRound) : Type 0 where
  pub answer :
      (ids : List Text) (s : S) (r : TrafficRound)
      → length ids ≤ 20
      → (read ids s).1 ≡ done r
      → named r.snapshots ≡ twice ids

named-append : (xs ys : List CounterSnapshot) → named (xs ++ ys) ≡ named xs ++ named ys
named-append [] ys = refl
named-append (x ∷ xs) ys = ap (λ t. (x.statistics_id, x.direction) ∷ t) (named-append xs ys)

twice-append : (xs ys : List Text) → twice (xs ++ ys) ≡ twice xs ++ twice ys
twice-append [] ys = refl
twice-append (x ∷ xs) ys = ap (λ t. (x, uplink) ∷ (x, downlink) ∷ t) (twice-append xs ys)

append_assoc : {A : Type 0} (xs ys zs : List A) → ((xs ++ ys) ++ zs) ≡ (xs ++ (ys ++ zs))
append_assoc [] ys zs = refl
append_assoc (x ∷ xs) ys zs = ap (λ t. x ∷ t) (append_assoc xs ys zs)

append_nil : {A : Type 0} (xs : List A) → (xs ++ []) ≡ xs
append_nil [] = refl
append_nil (x ∷ xs) = ap (λ t. x ∷ t) (append_nil xs)

take-drop : {A : Type 0} (n : ℕ) (xs : List A) → (take n xs ++ drop n xs) ≡ xs
take-drop zero xs = refl
take-drop (suc n) [] = refl
take-drop (suc n) (x ∷ xs) = ap (λ t. x ∷ t) (take-drop n xs)

length-take : {A : Type 0} (n : ℕ) (xs : List A) → length (take n xs) ≤ n
length-take zero xs = omega arith
length-take (suc n) [] = omega arith
length-take (suc n) (x ∷ xs) = omega (arith, length-take n xs)

length-drop : {A : Type 0} (n : ℕ) (xs : List A) → length (drop n xs) ≤ length xs - n
length-drop zero xs = omega arith
length-drop (suc n) [] = omega arith
length-drop (suc n) (x ∷ xs) = omega (arith, length-drop n xs)

snapshots-with_last_time :
    (merged : TrafficRound) (last : InstanceObservation)
    → (with_last_time merged last).snapshots ≡ merged.snapshots
unfolding with_last_time
snapshots-with_last_time merged last = ground arith

pub Reply-cases :
    {A : Type 0} (r : Reply A) → ((a : A) × (r ≡ done a)) ⊎ ((e : CallError) × (r ≡ failed e))
Reply-cases (done a) = inl (a, refl)
Reply-cases (failed e) = inr (e, refl)

StatReply-cases :
    (r : StatReply)
    → ((n : ℕ) × (r ≡ value n))
      ⊎ ((r ≡ not_found) ⊎ ((r ≡ malformed) ⊎ ((e : CallError) × (r ≡ stat_failed e))))
StatReply-cases (value n) = inl (n, refl)
StatReply-cases not_found = inr (inl refl)
StatReply-cases malformed = inr (inr (inl refl))
StatReply-cases (stat_failed e) = inr (inr (inr (e, refl)))

-- Two batches and the rest are the whole.
regroup :
    (merged next : TrafficRound) (batch rest : List Text)
    → named next.snapshots ≡ twice batch
    → (named (joined merged next).snapshots ++ twice rest)
      ≡ (named merged.snapshots ++ twice (batch ++ rest))
regroup merged next batch rest h =
    rw (named-append merged.snapshots next.snapshots, h, twice-append batch rest)
      (append_assoc (named merged.snapshots) (twice batch) (twice rest))

module _ {S : Type 0} (read : List Text → S → S × Reply TrafficRound) (lawful : Answers read) where
  read_rest-covers :
      (fuel : ℕ) (merged : TrafficRound) (previous : InstanceObservation) (ids : List Text) (s : S)
      (r : TrafficRound)
      → length ids ≤ fuel
      → (read_rest read fuel merged previous ids s).1 ≡ round r
      → named r.snapshots ≡ (named merged.snapshots ++ twice ids)
  unfolding read_rest
  read_rest-covers fuel merged previous [] s r h e =
      let same : with_last_time merged previous ≡ r = ground arith in
      rw (append_nil (named merged.snapshots)) (
        ap (λ (t : TrafficRound). named t.snapshots) (sym same)
        ∙ ap named (snapshots-with_last_time merged previous))
  read_rest-covers zero merged previous (id ∷ ids) s r h e = absurd (omega arith)
  read_rest-covers (suc fuel) merged previous (id ∷ ids) s r h e =
      let batch = take read_batch_size (id ∷ ids) in
      let rest = drop read_batch_size (id ∷ ids) in
      elim (Reply-cases (read batch s).1) [
        | inr (reason, y) ↦ absurd (ground (arith, e, y))
        | inl (next, y) ↦
            (let known = lawful.answer batch s next (length-take 20 (id ∷ ids)) y in
              elim (Option-cases
                (observation_mismatch merged.observation previous next.observation)) [
                  | inr (reason, m) ↦ absurd (ground (arith, e, y, m))
                  | inl m ↦
                      read_rest-covers fuel (joined merged next) next.observation rest
                        (read batch s).0 r
                        (omega (arith, h, length-drop read_batch_size (id ∷ ids)))
                        (ground (arith, e, y, m))
                      ∙ regroup merged next batch rest known
                      ∙ ap (λ t. named merged.snapshots ++ twice t)
                          (take-drop read_batch_size (id ∷ ids))
                ])
      ]

  -- If a single read that succeeds answers for each of the identities it asks for, up to twenty of them,
  -- then a round that is read names every identity asked for, however many, with both directions and in
  -- order.
  pub read_all-covers :
      (ids : List Text) (s : S) (r : TrafficRound)
      → (read_all read ids s).1 ≡ round r
      → named r.snapshots ≡ twice ids
  unfolding read_all
  read_all-covers [] s r e = ground arith
  read_all-covers (id ∷ ids) s r e =
      let batch = take read_batch_size (id ∷ ids) in
      elim (Reply-cases (read batch s).1) [
        | inr (reason, y) ↦ absurd (ground (arith, e, y))
        | inl (first, y) ↦
            read_rest-covers (length ids) first first.observation (drop read_batch_size (id ∷ ids))
              (read batch s).0 r (omega (arith, length-drop read_batch_size (id ∷ ids)))
              (ground (arith, e, y))
            ∙ ap (λ t. t ++ twice (drop read_batch_size (id ∷ ids)))
                (lawful.answer batch s first (length-take 20 (id ∷ ids)) y)
            ∙ sym (twice-append batch (drop read_batch_size (id ∷ ids)))
            ∙ ap twice (take-drop read_batch_size (id ∷ ids))
      ]

module _ {S : Type 0} (node : Node S) where
  read_counter-names :
      (i : Text) (d : Direction) (s : S) (c : CounterSnapshot)
      → (read_counter node i d s).1 ≡ done c
      → (c.statistics_id ≡ i) × (c.direction ≡ d)
  unfolding read_counter counter_name
  read_counter-names [] d s c e = ground arith
  read_counter-names (x ∷ i) d s c e =
      let name = codes "user>>>" ++ ((x ∷ i) ++ (codes ">>>traffic>>>" ++ direction_name d)) in
      elim (StatReply-cases (node.get_stats name s).1) [
        | inl (n, v) ↦ ground (arith, e, v)
        | inr (inl v) ↦ ground (arith, e, v)
        | inr (inr (inl v)) ↦ absurd (ground (arith, e, v))
        | inr (inr (inr (why, v))) ↦ absurd (ground (arith, e, v))
      ]

  read_identity-names :
      (i : Text) (s : S) (u d : CounterSnapshot)
      → (read_identity node i s).1 ≡ done (u, d)
      → named (u ∷ d ∷ []) ≡ twice (i ∷ [])
  unfolding read_identity
  read_identity-names i s u d e = elim (Reply-cases (read_counter node i uplink s).1) [
    | inr (why, f) ↦ absurd (ground (arith, e, f))
    | inl (up, y) ↦
        elim (Reply-cases (read_counter node i downlink (read_counter node i uplink s).0).1) [
          | inr (why, f) ↦ absurd (ground (arith, e, y, f))
          | inl (down, z) ↦ ground (
            arith,
            e,
            y,
            z,
            read_counter-names i uplink s up y,
            read_counter-names i downlink (read_counter node i uplink s).0 down z,
          )
        ]
  ]

  read_identities-names :
      (ids : List Text) (s : S) (cs : List CounterSnapshot)
      → (read_identities node ids s).1 ≡ done cs
      → named cs ≡ twice ids
  unfolding read_identities
  read_identities-names [] s cs e = ground arith
  read_identities-names (i ∷ ids) s cs e = elim (Reply-cases (read_identity node i s).1) [
    | inr (why, f) ↦ absurd (ground (arith, e, f))
    | inl ((u, d), y) ↦ elim (Reply-cases (read_identities node ids (read_identity node i s).0).1) [
      | inr (why, f) ↦ absurd (ground (arith, e, y, f))
      | inl (more, z) ↦ ground (
        arith,
        e,
        y,
        z,
        read_identity-names i s u d y,
        read_identities-names ids (read_identity node i s).0 more z,
      )
    ]
  ]

  pub read_traffic-Answers : Answers (read_traffic node)
  unfolding read_traffic
  read_traffic-Answers = record {
    answer = λ ids s r h e.
        let s' = (node.probe s).0 in
        elim (Reply-cases (read_identities node ids s').1) [
          | inr (why, f) ↦ absurd (ground (arith, e, f, h))
          | inl (cs, y) ↦ ground (arith, e, y, h, read_identities-names ids s' cs y)
        ];
  }
