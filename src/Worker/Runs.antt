-- ===== src/Worker/Runs.antt =====
-- What a part of the handler preserves: a rule for each way in which a handler is put together. The
-- nodes that count are the current one and those that the calls have left.
use xpanel.Prelude.{◌≡◌, refl, Bool, true, false, ◌∷◌, none, if◌then◌else◌, All, subst, sym, arith}
use xpanel.Store.Sync.{renew_sync_lease}
use xpanel.Ports.{Reply}
use xpanel.Worker.World.{
  SyncWork, Options, World, Flow, go, stop, M, ◌>>=◌, continue, Exit, leave, pass_time, rpc, fence,
}
use xpanel.Worker.Silent.{SameNode, IsSilent}

pass_time-SameNode : {S : Type 0} (w : World S) → SameNode w (pass_time w)
unfolding pass_time
pass_time-SameNode w = ground arith

module _ {S : Type 0} (Good : S → Type 0) where
  -- The current node and all that were left by a call are good.
  abbrev pub AllGood : World S → Type 0
  AllGood w = Good w.node × All Good w.trace

  -- After a result, the state is good; if the handler goes on, `Q` holds as well.
  abbrev pub Post : {A : Type 0} → (A → S → Type 0) → Flow A × World S → Type 0
  Post Q (go x, w) = AllGood w × Q x w.node
  Post Q (stop _, w) = AllGood w

  pub record Runs {A : Type 0} (P : S → Type 0) (m : M S A) (Q : A → S → Type 0) : Type 0 where
    pub run : (w : World S) → AllGood w → P w.node → Post Q (m w)

  SameNode-AllGood : (w w' : World S) → SameNode w w' → AllGood w → AllGood w'
  SameNode-AllGood w w' (n, t) (g, gs) = (subst Good (sym n) g, subst (All Good) (sym t) gs)

  pub bind-Runs :
      {A B : Type 0} {P : S → Type 0} {Q : A → S → Type 0} {R : B → S → Type 0} {m : M S A}
      {f : A → M S B}
      → Runs P m Q
      → ((x : A) → Runs (Q x) (f x) R)
      → Runs P (m >>= f) R
  bind-Runs {A} {B} {P} {Q} {R} {m} {f} first next = record {
    run = λ w good p. from (m w) (first.run w good p);
  }
    where
      from :
          (r : Flow A × World S)
          → Post Q r
          → Post R (elim r.0 [ go x ↦ f x r.1 | stop e ↦ (stop e, r.1) ])
      from (go x, w') (good', q) = (next x).run w' good' q
      from (stop e, w') good' = good'

  pub leave-Runs :
      {A : Type 0} {P : S → Type 0} {Q : A → S → Type 0} (e : Exit S)
      → IsSilent e
      → Runs P (leave e) Q
  leave-Runs e silent = record { run = λ w good p. SameNode-AllGood w (e w).1 (silent w) good }

  pub continue-Runs :
      {A : Type 0} {P : S → Type 0} {Q : A → S → Type 0} (x : A)
      → ((n : S) → P n → Q x n)
      → Runs P (continue x) Q
  continue-Runs x imp = record { run = λ w good p. (good, imp w.node p) }

  pub rpc-Runs :
      {A : Type 0} {P : S → Type 0} {Q : Reply A → S → Type 0} (call : S → S × Reply A)
      → ((n : S) → Good n → P n → Good (call n).0 × Q (call n).1 (call n).0)
      → Runs P (rpc call) Q
  unfolding rpc
  rpc-Runs {A} {P} {Q} call law = record { run = after }
    where
      after : (w : World S) → AllGood w → P w.node → Post Q (rpc call w)
      after w good p =
          let called = record w { node = (call w.node).0; trace = (call w.node).0 ∷ w.trace } in
          let same = pass_time-SameNode called in
          let (good', q) = law w.node good.0 p in
          (
            SameNode-AllGood called (pass_time called) same (good', (good', good.1)),
            subst (Q (call w.node).1) (sym same.0) q,
          )

  pub fence-Runs :
      {P : S → Type 0} (options : Options) (work : SyncWork)
      → Runs P (fence options work) (λ _ n. P n)
  unfolding fence
  fence-Runs {P} options work = record { run = renewed }
    where
      from :
          (held : Bool) (w : World S)
          → AllGood w
          → P w.node
          → Post (λ (_ : Unit {0}) n. P n) (if held then go tt else stop none, w)
      from true w good p = (good, p)
      from false w good p = good

      renewed :
          (w : World S)
          → AllGood w
          → P w.node
          → Post (λ (_ : Unit {0}) n. P n) (fence options work w)
      renewed w good p =
          let r = renew_sync_lease work.operation.id options.owner w.now options.lease w.db in
          from r.1 (record w { db = r.0 }) good p

  pub if-Runs :
      {A : Type 0} {P : S → Type 0} {Q : A → S → Type 0} (b : Bool) {m k : M S A}
      → (b ≡ true → Runs P m Q)
      → (b ≡ false → Runs P k Q)
      → Runs P (if b then m else k) Q
  if-Runs true f g = f refl
  if-Runs false f g = g refl

  -- More is known beforehand than is needed.
  pub forget-Runs :
      {A : Type 0} {P P' : S → Type 0} {m : M S A} {Q : A → S → Type 0}
      → ((n : S) → P' n → P n)
      → Runs P m Q
      → Runs P' m Q
  forget-Runs imp r = record { run = λ w good p. r.run w good (imp w.node p) }
