-- ===== src/Worker/World.antt =====
-- The state that a worker runs on, and the calls with which it leaves its process: an adapter call, during
-- which other processes may commit, and a renewal of its lease.
use xpanel.Prelude.{ℕ, ◌+◌, List, [], ◌∷◌, Option, none, if◌then◌else◌}
use xpanel.Prelude.Text.{Text}
use xpanel.Prelude.Int.{ℤ}
use xpanel.Domain.Errors.{Error}
use xpanel.Domain.User.{LifecycleState}
use xpanel.Domain.Sync.{SynchronizationOperation}
use xpanel.Store.Tables.{Db, InboundRow, TemplateRow}
use xpanel.Store.Sync.{renew_sync_lease}
use xpanel.Ports.{Reply}

-- `ports.SyncWork`, as far as the synchronizer reads it.
pub record SyncWork : Type 0 where
  pub operation : SynchronizationOperation
  pub lifecycle : LifecycleState
  pub user_id : Text
  pub statistics_id : Text
  pub template : TemplateRow
  pub inbound : InboundRow
  pub credential_version : ℕ
  pub credential_key : List ℕ

-- The synchronizer's own settings, with the keyring's decryption and the source of fresh keys, which
-- stand for cryptographic libraries.
pub record Options : Type 0 where
  pub owner : Text
  pub lease : ℕ
  pub max_retry : ℤ
  pub random : Option (ℕ → ℤ)
  pub decrypt : List ℕ → Option Text
  pub generate_user_key : Text → Option Text

-- `others` is what happens during each call to Xray: the milliseconds that pass, and what other
-- processes commit. `failures` is the synchronizer's field; `trace` holds the node after every call,
-- the latest first.
pub record World (S : Type 0) : Type 0 where
  pub node : S
  pub db : Db
  pub now : ℕ
  pub others : List (ℕ × (Db → Db))
  pub failures : ℕ
  pub trace : List S

-- Go on with a value, or return from the handler.
pub data Flow (A : Type 0) : Type 0 where
  go : A → Flow A
  stop : Option Error → Flow A

abbrev pub M : Type 0 → Type 0 → Type 0
M S A = World S → Flow A × World S

infixl 5 ◌>>=◌ ◌>>◌
abbrev pub ◌>>=◌ : {S A B : Type 0} → M S A → (A → M S B) → M S B
◌>>=◌ m f w = elim (m w).0 [ go x ↦ f x (m w).1 | stop e ↦ (stop e, (m w).1) ]

abbrev pub ◌>>◌ : {S B : Type 0} → M S (Unit {0}) → M S B → M S B
◌>>◌ m k = m >>= λ _. k

abbrev pub continue : {S A : Type 0} → A → M S A
continue x w = (go x, w)

-- What the handler returns, with the state it leaves.
abbrev pub Exit : Type 0 → Type 0
Exit S = World S → Option Error × World S

-- `return e` from inside the handler.
abbrev pub leave : {S A : Type 0} → Exit S → M S A
leave e w = (stop (e w).0, (e w).1)

unfoldable pub pass_time : {S : Type 0} → World S → World S
pass_time w = elim w.others [
  | [] ↦ w
  | (elapsed, commit) ∷ rest ↦ record w { now = w.now + elapsed; db = commit w.db; others = rest }
]

unfoldable pub rpc : {S A : Type 0} → (S → S × Reply A) → M S (Reply A)
unfolding pass_time
rpc call w =
    let (node, reply) = call w.node in
    (go reply, pass_time (record w { node = node; trace = node ∷ w.trace }))

-- `fence`: renew the lease and check that the intent is still the latest, or give up silently.
unfoldable pub fence : {S : Type 0} → Options → SyncWork → M S (Unit {0})
fence options work w =
    let (db, held) = renew_sync_lease work.operation.id options.owner w.now options.lease w.db in
    (if held then go tt else stop none, record w { db = db })
