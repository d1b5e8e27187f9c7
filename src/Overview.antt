-- ===== src/Overview.antt =====
-- The thread lists that src/nntp/mod.rs builds from overview entries and from HDR data: the
-- grouping by root, the trees, the latest date, and the merge of new articles. An overview entry
-- belongs to the crate nntp_rs and is read through accessors, a record of functions; the dates
-- that chrono parses are numbers. The recursion over the references has fuel, the depth of the
-- stack; `none` means that it was not enough.
pub mod Words
pub mod Build
pub mod Multimap
pub mod Counts
pub mod Terminates
pub mod Merge
pub mod Kept
pub mod Threads
mod Examples
use september.Base.{ℕ, Option, none, some, List, [], ◌∷◌, ◌++◌, String, Map, lookup, insert}

-- The accessors of an entry.
pub record Fields (E : Type 0) : Type 0 where
  pub message_id : E → Option String
  pub references : E → Option String
  pub subject : E → Option String
  pub from : E → Option String
  pub date : E → Option String

-- DateTime::parse_from_rfc2822, and compute_timeago at the present moment.
pub record Dates : Type 0 where
  pub parse_from_rfc2822 : String → Option ℕ
  pub compute_timeago : String → String

pub record HdrArticleData : Type 0 where
  pub message_id : String
  pub references : Option String
  pub subject : String
  pub from : String
  pub date : String

unfoldable pub hdr_fields : Fields HdrArticleData
hdr_fields = record {
  message_id = λ a. some a.message_id;
  references = λ a. a.references;
  subject = λ a. some a.subject;
  from = λ a. some a.from;
  date = λ a. some a.date;
}

abbrev pub default_subject : String
default_subject = "(no subject)"

module _ {V : Type 0} where
  abbrev pub or_empty : Option (List V) → List V
  or_empty none = []
  or_empty (some vs) = vs

  -- map.entry(key).or_default().push(value)
  unfoldable pub push : String → V → Map (List V) → Map (List V)
  push key value m = insert key (or_empty (lookup key m) ++ value ∷ []) m
