-- ===== src/Collect/Tests.antt =====
-- A round of collection for one user on a node that counts its calls.
use xpanel.Store.Tables.{user_by_id}
use xpanel.Domain.Errors.{plain_error}
use xpanel.Prelude.{none, some, ℕ, ◌≡◌, refl, [], ◌∷◌, find, map}
use xpanel.Prelude.Text.{Text, codes, text_eq}
use xpanel.Store.Accounts.{Books, open_cycle, policy_of}
use xpanel.Store.Accounts.Tests.{books, numbered}
use xpanel.Store.Users.Tests.{listener}
use xpanel.Traffic.Update.{CollectionTarget}
use xpanel.Collect.{WriteErrors, collection_targets}

abbrev tables : Books
tables = record books {
  db = record books.db {
    inbounds = listener ∷ [];
    identities = record { allocation_id = codes "a1"; statistics_id = codes "dave" } ∷ [];
  };
}

abbrev utc_day : ℕ → Text → ℕ × Text
utc_day now zone = (0, codes "1970-01-01")

abbrev operation : Text → Text
operation id = 111 ∷ id

abbrev cycle : Text → ℕ → Text
cycle id n = numbered n

-- The instance cannot be marked as healthy after the commit.
abbrev failing : WriteErrors
failing = record { advancing = none; marking = some (plain_error "disk I/O error") }

-- The user is a target.
one_target :
    map (λ (t : CollectionTarget). t.allocation_id) (collection_targets tables) ≡ codes "a1" ∷ []
unfolding collection_targets user_by_id find text_eq policy_of open_cycle
one_target = refl
