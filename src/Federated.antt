-- ===== src/Federated.antt =====
-- The federated service of src/nntp/federated.rs: several NNTP servers behind one interface.
-- An NNTP error is its text. A server is the function that answers a request, and a cache of the
-- moka crate is an interface whose laws say that it returns only what was inserted last, and may
-- forget an entry at any time.
pub mod Failover
pub mod Articles
pub mod Lookup
pub mod Groups
pub mod Carriers
pub mod Directory
pub mod Posting
pub mod Dispatch
pub mod Marks
pub mod Threads
pub mod Injection
pub mod Listing
pub mod Polling
pub mod Page
pub mod Flights
pub mod Incremental
mod Caches
mod Examples
mod ThreadExamples
mod PollingExamples
mod PageExamples
use september.Base.{ℕ, ◌≡◌, ◌≢◌, Bool, ◌||◌, Option, none, some, String, if◌then◌else◌}
use september.Base.Text.{Text, contains, to_lowercase, codes}

abbrev pub NntpError : Type 0
NntpError = Text

-- The cases of AppError that the service makes.
pub data AppError : Type 0 where
  article_not_found : String → AppError
  group_not_found : String → AppError
  internal : Text → AppError

pub data Result {ℓ κ} (A : Type ℓ) (E : Type κ) : Type (ℓ ⊔ κ) where
  ok : A → Result A E
  err : E → Result A E

-- What the service relies on of moka::future::Cache.
pub record Cache (V : Type 0) : Type 1 where
  pub Store : Type 0
  pub get : Store → String → Option V
  pub insert : Store → String → V → Store
  pub invalidate : Store → String → Store
  -- After an insertion the key has the new value or none, and other keys what they had or none.
  pub get-insert_self : (s : Store) (k : String) (v w : V) → get (insert s k v) k ≡ some w → w ≡ v
  pub get-insert_ne :
      (s : Store) (k j : String) (v w : V)
      → k ≢ j
      → get (insert s k v) j ≡ some w
      → get s j ≡ some w
  pub get-invalidate_self : (s : Store) (k : String) → get (invalidate s k) k ≡ none
  pub get-invalidate_ne :
      (s : Store) (k j : String) (w : V) → get (invalidate s k) j ≡ some w → get s j ≡ some w

unfoldable pub is_not_found_error : NntpError → Bool
is_not_found_error error =
    let error_msg = to_lowercase error in
    contains error_msg (codes "430")
    || contains error_msg (codes "423")
    || contains error_msg (codes "no such article")
    || contains error_msg (codes "article not found")

unfoldable pub is_group_not_found_error : NntpError → Bool
is_group_not_found_error error =
    let error_msg = to_lowercase error in
    contains error_msg (codes "411")
    || contains error_msg (codes "no such newsgroup")
    || contains error_msg (codes "group not found")

unfoldable pub nntp_error_to_app_error : NntpError → String → AppError
nntp_error_to_app_error error group =
    if is_group_not_found_error error then group_not_found group else internal error
